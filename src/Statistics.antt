-- ===== src/Statistics.antt =====
-- internal/repository/deal.go: the statistics of the last 24 hours, from the query to the records.
pub mod Typing
pub mod Answers
use Prim.Native.String.{◌++◌ as text_append}
use ohlcv.Base.{
  ℕ, ◌≡◌, Bool, true, false, String, List, [], ◌∷◌, map, Option, none, some, ℤ, pos, negsuc, ◌+ℤ◌,
  str_eq, Assoc, Result, ok, err, Run, done, panic, then_run, if◌then◌else◌,
}
use ohlcv.Decimal.{Decimals}
use ohlcv.Bson.{
  Bson, Items, Fields, decimal, double, utf8, date, int32, flag, array, document, item, no_items,
  value_at, as_decimal, as_text, as_date, as_int32, one, doc, items,
}
use ohlcv.Deals.{date_time}
use ohlcv.Consumers.{TickerStatistics}

-- What is used of float64 and strconv; a format has a number of decimals, or -1 for as many as needed.
pub record Floats (F : Type 0) : Type 0 where
  pub zero_float : F
  pub parse_float : String → Result F
  pub format_float : F → ℤ → String
  pub minus : F → F → F
  pub divided_by : F → F → F

-- primitive.NewDateTimeFromTime(time.Now().Add(-duration)), from Unix nanoseconds.
unfoldable pub from_time : ℤ → ℤ → ℤ
from_time now minus_duration = date_time (now +ℤ minus_duration)

-- -24 * time.Hour
abbrev pub minus_24h : ℤ
minus_24h = negsuc 86_399_999_999_999

-- The markets that are asked for: the one given, or all for "".
unfoldable pub asked_markets : List String → String → List String
asked_markets all market = if str_eq market "" then all else market ∷ []

module _ {D F : Type 0} where
  unfoldable pub match_stage : ℤ → List String → Bson D F
  match_stage from markets = one "$match" (
      doc (
        ("t", one "$gte" (date from)) ∷ ("data.market", one "$in" (items (map utf8 markets))) ∷ []))

  abbrev of_deals : String → String → Bson D F
  of_deals operator path = one operator (utf8 path)

  unfoldable pub group_stage : Bson D F
  group_stage = one "$group" (
      doc (
        ("_id", utf8 "$data.market")
        ∷ ("volume", of_deals "$sum" "$data.volume")
        ∷ (
          "quoteVolume",
          one "$sum" (one "$multiply" (items (utf8 "$data.price" ∷ utf8 "$data.volume" ∷ []))),
        )
        ∷ ("count", one "$count" (doc []))
        ∷ ("highPrice", of_deals "$max" "$data.price")
        ∷ ("lowPrice", of_deals "$min" "$data.price")
        ∷ ("openPrice", of_deals "$first" "$data.price")
        ∷ ("closePrice", of_deals "$last" "$data.price")
        ∷ ("openTime", of_deals "$first" "$t")
        ∷ ("closeTime", of_deals "$last" "$t")
        ∷ ("firstId", of_deals "$first" "$data.dealid")
        ∷ ("lastId", of_deals "$last" "$data.dealid")
        ∷ ("lastQty", of_deals "$last" "$data.volume")
        ∷ []))

  unfoldable pub lookup_stage : String → ℤ → Bson D F
  lookup_stage collection_name from = one "$lookup" (
      doc (
        ("from", utf8 collection_name)
        ∷ ("localField", utf8 "_id")
        ∷ ("foreignField", utf8 "data.market")
        ∷ (
          "pipeline",
          items (
              one "$match" (one "t" (one "$lt" (date from)))
              ∷ one "$sort" (one "t" (int32 (pos 1)))
              ∷ one "$limit" (int32 (pos 1))
              ∷ []),
        )
        ∷ ("as", utf8 "prev_window_trade")
        ∷ []))

  -- The pipeline of GetTickerPriceChangeStatistics.
  unfoldable pub statistics_pipeline : String → ℤ → List String → List (Bson D F)
  unfolding match_stage group_stage lookup_stage
  statistics_pipeline collection_name from markets =
      match_stage from markets
      ∷ one "$sort" (one "t" (int32 (pos 1)))
      ∷ group_stage
      ∷ lookup_stage collection_name from
      ∷ []

module _ {D S F : Type 0} (dec : Decimals D S) (fl : Floats F) where
  pub calc_vwap : D → D → String
  calc_vwap quote_volume volume = elim (fl.parse_float (dec.to_text quote_volume)) [
    | err e ↦ ""
    | ok quote_volume_f ↦ elim (fl.parse_float (dec.to_text volume)) [
      | err e ↦ ""
      | ok volume_f ↦ fl.format_float (fl.divided_by quote_volume_f volume_f) (pos 4)
    ]
  ]

  -- The change and its share of the open price.
  pub calc_change : D → D → F × F
  calc_change close_price open_price = elim (fl.parse_float (dec.to_text close_price)) [
    | err e ↦ (fl.zero_float, fl.zero_float)
    | ok close_price_f ↦ elim (fl.parse_float (dec.to_text open_price)) [
      | err e ↦ (fl.zero_float, fl.zero_float)
      | ok open_price_f ↦
          let change = fl.minus close_price_f open_price_f in
          (change, fl.divided_by change open_price_f)
    ]
  ]

  -- The price of a trade, as it is stored.
  price_text : Option (Bson D F) → String
  price_text (some (decimal price)) = dec.to_text price
  price_text (some (utf8 price)) = price
  price_text (some (double price)) = fl.format_float price (negsuc 0)
  price_text other = ""

  price_of_data : Option (Bson D F) → String
  unfolding price_text
  price_of_data (some (document trade)) = price_text (value_at "price" trade)
  price_of_data other = ""

  price_of_trade : Bson D F → String
  unfolding price_of_data
  price_of_trade (document m) = price_of_data (value_at "data" m)
  price_of_trade other = ""

  -- Of an array of one trade its price, and otherwise "".
  unfoldable pub parse_prev_close_price : Option (Bson D F) → String
  unfolding price_of_trade
  parse_prev_close_price (some (array (item trade no_items))) = price_of_trade trade
  parse_prev_close_price other = ""

  -- Every type assertion that fails panics, in whichever order they are made.
  unfoldable pub parse_statistics : Fields D F → Run TickerStatistics
  unfolding calc_vwap calc_change parse_prev_close_price
  parse_statistics m = then_run (as_decimal (value_at "closePrice" m)) (λ close_price.
      then_run (as_decimal (value_at "openPrice" m)) (λ open_price.
        then_run (as_decimal (value_at "quoteVolume" m)) (λ quote_volume.
          then_run (as_decimal (value_at "volume" m)) (λ volume.
            then_run (as_text (value_at "_id" m)) (λ symbol.
              then_run (as_decimal (value_at "highPrice" m)) (λ high_price.
                then_run (as_decimal (value_at "lowPrice" m)) (λ low_price.
                  then_run (as_date (value_at "openTime" m)) (λ open_time.
                    then_run (as_date (value_at "closeTime" m)) (λ close_time.
                      then_run (as_text (value_at "firstId" m)) (λ first_id.
                        then_run (as_text (value_at "lastId" m)) (λ last_id.
                          then_run (as_decimal (value_at "lastQty" m)) (λ last_qty.
                            then_run (as_int32 (value_at "count" m)) (λ count. done (record {
                              symbol = symbol;
                              price_change =
                                  fl.format_float (calc_change close_price open_price).0 (pos 8);
                              price_change_percent =
                                  fl.format_float (calc_change close_price open_price).1 (pos 8);
                              weighted_avg_price = calc_vwap quote_volume volume;
                              prev_close_price =
                                  parse_prev_close_price (value_at "prev_window_trade" m);
                              last_price = dec.to_text close_price;
                              last_qty = dec.to_text last_qty;
                              bid_price = "";
                              bid_qty = "";
                              ask_price = "";
                              ask_qty = "";
                              open_price = dec.to_text open_price;
                              high_price = dec.to_text high_price;
                              low_price = dec.to_text low_price;
                              volume = dec.to_text volume;
                              quote_volume = dec.to_text quote_volume;
                              open_time = open_time;
                              close_time = close_time;
                              first_id = first_id;
                              last_id = last_id;
                              count = count;
                            }))))))))))))))

  parse_all : List (Fields D F) → Run (List TickerStatistics)
  unfolding parse_statistics
  parse_all [] = done []
  parse_all (v ∷ resp) =
      then_run (parse_statistics v)
        (λ s. then_run (parse_all resp) (λ statistics. done (s ∷ statistics)))

  -- From Mongo's answer on: the error of Aggregate, the error of All, or the documents.
  unfoldable pub statistics_of_answer :
      Result (Result (List (Fields D F))) → Run (Result (List TickerStatistics))
  unfolding parse_all
  statistics_of_answer (err e) =
      done
        (err (text_append "GetTickerPriceChangeStatistics: Aggregate error '" (text_append e "'")))
  statistics_of_answer (ok (err e)) = done (
      err (text_append "GetTickerPriceChangeStatistics: aggregate.All error '" (text_append e "'")))
  statistics_of_answer (ok (ok resp)) =
      then_run (parse_all resp) (λ statistics. done (ok statistics))

-- GetTickerPriceChangeStatistics of the repository, where `all` are its markets. The deadline that a
-- pipeline is sent with is no part of it.
module _ {D S F : Type 0} (dec : Decimals D S) (fl : Floats F)
    (aggregate : List (Bson D F) → Result (Result (List (Fields D F)))) where
  unfoldable pub get_ticker_price_change_statistics :
      String → List String → ℤ → String → Run (Result (List TickerStatistics))
  unfolding statistics_of_answer
  get_ticker_price_change_statistics collection_name all now market = statistics_of_answer dec fl (
      aggregate
        (statistics_pipeline collection_name (from_time now minus_24h) (asked_markets all market)))
