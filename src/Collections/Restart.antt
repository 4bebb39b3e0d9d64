-- ===== src/Collections/Restart.antt =====
-- A second start finds what the first has made.
use ohlcv.Base.{◌≡◌, true, String, List, Option, ok}
use ohlcv.Collections.{Database, TimeSeries, IndexModel, is_among}

-- What is assumed of Mongo: a collection that has been created is among those that are listed, and
-- making an index changes no list.
pub record Lists {D F Db : Type 0} (mongo : Database D F Db) : Type 0 where
  pub created :
      (name : String) (opt : Option TimeSeries) (db db' : Db) (names : List String)
      → mongo.create_collection name opt db ≡ ok db'
      → mongo.list_collections db' ≡ ok names
      → is_among name names ≡ true
  pub indexed :
      (name : String) (index : IndexModel D F) (db db' : Db)
      → mongo.create_one name index db ≡ ok db'
      → mongo.list_collections db' ≡ mongo.list_collections db
