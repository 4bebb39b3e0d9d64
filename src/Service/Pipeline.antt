-- ===== src/Service/Pipeline.antt =====
-- The pipeline of GetCandles in candle/storage.go.
use ohlcv.Base.{
  ℕ, ◌≡◌, refl, ap, sym, ◌∙◌, inl, inr, Option-cases, String, List, [], ◌∷◌, ◌/◌, pos, sub_ℕ, arith,
  Result,
}
use ohlcv.Time.{unix_nano}
use ohlcv.Bson.{Bson, utf8, date, int32, one, doc, items}
use ohlcv.Deals.{date_time}
use ohlcv.Stored.{newest_first_stage}
use ohlcv.Candle.{Chart}
use ohlcv.Resolution.Names.{named}
use ohlcv.Service.{Query, get_candles, get_candle_by_resolution, bins_of}

module _ {D F : Type 0} where
  -- primitive.NewDateTimeFromTime.
  unfoldable date_of : ℕ → Bson D F
  date_of t = date (date_time (unix_nano t))

  unfoldable match_stage : Query → Bson D F
  unfolding date_of
  match_stage q = one "$match" (
      doc (
        ("data.market", utf8 q.market)
        ∷ ("t", doc (("$gte", date_of q.from) ∷ ("$lte", date_of q.to) ∷ []))
        ∷ []))

  unfoldable first_group_stage : Query → Bson D F
  first_group_stage q = one "$group" (
      doc (
        (
          "_id",
          doc (
              ("symbol", utf8 "$data.market")
              ∷ (
                "t",
                one "$dateTrunc" (
                    doc (
                      ("date", utf8 "$t")
                      ∷ ("unit", utf8 q.unit)
                      ∷ ("binSize", int32 (pos q.unit_size))
                      ∷ [])),
              )
              ∷ []),
        )
        ∷ ("o", one "$last" (utf8 "$data.price"))
        ∷ ("h", one "$max" (utf8 "$data.price"))
        ∷ ("l", one "$min" (utf8 "$data.price"))
        ∷ ("c", one "$first" (utf8 "$data.price"))
        ∷ ("v", one "$sum" (utf8 "$data.volume"))
        ∷ []))

  -- The seconds of the start of an interval, from its milliseconds.
  unfoldable project_stage : Bson D F
  project_stage = one "$project" (
      doc (
        ("_id", int32 (pos 0))
        ∷ ("t", one "$divide" (items (one "$toLong" (utf8 "$_id.t") ∷ int32 (pos 1000) ∷ [])))
        ∷ ("symbol", utf8 "$_id.symbol")
        ∷ ("o", one "$toDecimal" (utf8 "$o"))
        ∷ ("h", one "$toDecimal" (utf8 "$h"))
        ∷ ("l", one "$toDecimal" (utf8 "$l"))
        ∷ ("c", one "$toDecimal" (utf8 "$c"))
        ∷ ("v", one "$toDecimal" (utf8 "$v"))
        ∷ []))

  unfoldable second_sort_stage : Bson D F
  second_sort_stage = one "$sort" (doc (("symbol", int32 (pos 1)) ∷ ("t", int32 (pos 1)) ∷ []))

  unfoldable second_group_stage : Bson D F
  second_group_stage = one "$group" (
      doc (
        ("_id", utf8 "$symbol")
        ∷ ("o", one "$push" (utf8 "$o"))
        ∷ ("h", one "$push" (utf8 "$h"))
        ∷ ("l", one "$push" (utf8 "$l"))
        ∷ ("c", one "$push" (utf8 "$c"))
        ∷ ("v", one "$push" (utf8 "$v"))
        ∷ ("t", one "$push" (utf8 "$t"))
        ∷ []))

  unfoldable charts_pipeline : Query → List (Bson D F)
  unfolding match_stage first_group_stage project_stage second_sort_stage second_group_stage
      newest_first_stage
  charts_pipeline q =
      match_stage q
      ∷ newest_first_stage
      ∷ first_group_stage q
      ∷ project_stage
      ∷ second_sort_stage
      ∷ second_group_stage
      ∷ []

  -- `mongo` is Aggregate and the cursor's All: it sees the pipeline only.
  unfoldable pub charts_of :
      (List (Bson D F) → Result (List (Chart D))) → Query → Result (List (Chart D))
  unfolding charts_pipeline
  charts_of mongo q = mongo (charts_pipeline q)

date_time-unix_nano : (t : ℕ) → date_time (unix_nano t) ≡ sub_ℕ (t / 1_000_000) 62_135_596_800_000
unfolding unix_nano date_time
date_time-unix_nano t = ground arith

module _ {D F : Type 0} (mongo : List (Bson D F) → Result (List (Chart D))) where
  -- Mongo sees the two ends of the period in whole milliseconds.
  date_of-millisecond :
      (t t' : ℕ) → t / 1_000_000 ≡ t' / 1_000_000 → date_of {D = D} {F = F} t ≡ date_of t'
  unfolding date_of
  date_of-millisecond t t' e = ap date (
      date_time-unix_nano t ∙ ap (λ n. sub_ℕ n 62_135_596_800_000) e ∙ sym (date_time-unix_nano t'))

  charts_of-millisecond :
      (market unit : String) (unit_size from to from' to' : ℕ)
      → from / 1_000_000 ≡ from' / 1_000_000
      → to / 1_000_000 ≡ to' / 1_000_000
      → get_candles (charts_of mongo) market unit unit_size from to
        ≡ get_candles (charts_of mongo) market unit unit_size from' to'
  unfolding get_candles charts_of charts_pipeline match_stage first_group_stage
  charts_of-millisecond market unit unit_size from to from' to' starts ends =
      rw (date_of-millisecond from from' starts, date_of-millisecond to to' ends) refl

  -- For GetCandleByResolution, periods whose ends lie in the same milliseconds are the same.
  pub get_candle_by_resolution-millisecond :
      (market resolution : String) (from to from' to' : ℕ)
      → from / 1_000_000 ≡ from' / 1_000_000
      → to / 1_000_000 ≡ to' / 1_000_000
      → get_candle_by_resolution (charts_of mongo) market resolution from to
        ≡ get_candle_by_resolution (charts_of mongo) market resolution from' to'
  unfolding get_candle_by_resolution
  get_candle_by_resolution-millisecond market r from to from' to' starts ends =
      elim (Option-cases (named r)) [
        | inl e ↦ rw (e, get_candle_by_resolution) refl
        | inr (n, e) ↦
            rw
              (
                e,
                get_candle_by_resolution,
                charts_of-millisecond market (bins_of n).0 (bins_of n).1 from to from' to' starts
                    ends,
              )
              refl
      ]
