-- ===== src/Example/Database.antt =====
-- The theorem on the collections, applied to a database that is the list of their names.
use ohlcv.Base.{String, List, ◌∷◌, ok}
use ohlcv.Collections.{Database}

abbrev named_collections : Database String String (List String)
named_collections = record {
  list_collections = λ db. ok db;
  create_collection = λ name opt db. ok (name ∷ db);
  create_one = λ name index db. ok db;
}
