-- ===== src/Collections.antt =====
-- The collections of infra/mongo/mongo.go: they are made at the start if they are not there.
pub mod Restart
use ohlcv.Base.{
  ◌≡◌, Bool, true, false, ◌||◌, String, List, [], ◌∷◌, Option, none, some, ℤ, pos, negsuc, str_eq,
  Result, ok, err, Run, done, panic, then_run, if◌then◌else◌,
}
use ohlcv.Bson.{Bson, int32, doc}

-- The options of CreateCollection: those of a time series.
pub record TimeSeries : Type 0 where
  pub time_field : String
  pub meta_field : String
  pub granularity : String

pub record IndexModel (D F : Type 0) : Type 0 where
  pub name : String
  pub keys : Bson D F
  pub is_unique : Bool

-- What is used of a mongo.Database, whose state is a `Db`; a collection is known by its name.
pub record Database (D F Db : Type 0) : Type 0 where
  -- The names that ListCollections and its cursor answer.
  pub list_collections : Db → Result (List String)
  pub create_collection : String → Option TimeSeries → Db → Result Db
  -- Indexes().CreateOne of a collection.
  pub create_one : String → IndexModel D F → Db → Result Db

unfoldable pub run_or_panic {ℓ} : {A : Type ℓ} → Result A → Run A
run_or_panic (err e) = panic
run_or_panic (ok a) = done a

unfoldable pub is_among : String → List String → Bool
is_among wanted [] = false
is_among wanted (name ∷ names) = str_eq name wanted || is_among wanted names

-- getDealsCollectionOptions, and those of the minutes, which are none.
abbrev pub deals_collection_options : Option TimeSeries
deals_collection_options =
    some (record { time_field = "t"; meta_field = "data"; granularity = "hours" })

abbrev pub minutes_collection_options : Option TimeSeries
minutes_collection_options = none

module _ {D F : Type 0} where
  unfoldable pub deals_index : IndexModel D F
  deals_index = record {
    name = "trades";
    keys = doc (("data.market", int32 (pos 1)) ∷ ("t", int32 (negsuc 0)) ∷ []);
    is_unique = false;
  }

  unfoldable pub minutes_index : IndexModel D F
  minutes_index = record {
    name = "minutes";
    keys = doc (("symbol", int32 (pos 1)) ∷ ("t", int32 (negsuc 0)) ∷ []);
    is_unique = false;
  }

module _ {D F Db : Type 0} (mongo : Database D F Db) where
  unfoldable pub collection_exist : String → Db → Run Bool
  unfolding run_or_panic is_among
  collection_exist name db =
      then_run (run_or_panic (mongo.list_collections db)) (λ names. done (is_among name names))

  -- initCollection and createIndex, as InitDealsCollection and InitMinutesCollection call them.
  unfoldable pub init_with : String → Option TimeSeries → IndexModel D F → Db → Run Db
  unfolding run_or_panic
  init_with name opt index db =
      then_run (run_or_panic (mongo.create_collection name opt db))
        (λ created. run_or_panic (mongo.create_one name index created))

  unfoldable pub get_or_create : String → Option TimeSeries → IndexModel D F → Db → Run Db
  unfolding collection_exist init_with
  get_or_create name opt index db =
      then_run (collection_exist name db)
        (λ there. if there then done db else init_with name opt index db)

  unfoldable pub get_or_create_deals_collection : String → Db → Run Db
  unfolding get_or_create
  get_or_create_deals_collection name db =
      get_or_create name deals_collection_options deals_index db

  unfoldable pub get_or_create_minutes_collection : String → Db → Run Db
  unfolding get_or_create
  get_or_create_minutes_collection name db =
      get_or_create name minutes_collection_options minutes_index db
