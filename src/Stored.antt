-- ===== src/Stored.antt =====
-- The candles and klines of a minute that Mongo makes of the stored deals: internal/model/candle.go and
-- kline.go, and the pipelines of internal/repository/candle.go and kline.go with the services that
-- pass them on.
use Prim.Native.String.{◌++◌ as text_append}
use ohlcv.Base.{true, String, List, [], ◌∷◌, ℤ, pos, negsuc, Result, ok, err}
use ohlcv.Bson.{Bson, utf8, date, int32, flag, one, doc, items}
use ohlcv.Deals.{date_time}

-- model.Candle; its time is in Unix nanoseconds.
pub record MinuteCandle (D : Type 0) : Type 0 where
  pub symbol : String
  pub opening : D
  pub high : D
  pub low : D
  pub closing : D
  pub volume : D
  pub open_time : ℤ

pub record Kline (D : Type 0) : Type 0 where
  pub open_time : ℤ
  pub opening : D
  pub high : D
  pub low : D
  pub closing : D
  pub volume : D
  pub close_time : ℤ
  pub quotes : D
  pub trades : ℤ
  pub taker_assets : D
  pub taker_quotes : D
  pub symbol : String
  pub first : ℤ
  pub last : ℤ

module _ {D F : Type 0} where
  -- The stages that the two pipelines share. The times of the interval are in Unix nanoseconds.
  unfoldable pub between_stage : ℤ → ℤ → Bson D F
  between_stage from to =
      one "$match"
        (one "t" (doc (("$gte", date (date_time from)) ∷ ("$lte", date (date_time to)) ∷ [])))

  unfoldable pub newest_first_stage : Bson D F
  newest_first_stage =
      one "$sort" (doc (("data.market", int32 (pos 1)) ∷ ("t", int32 (negsuc 0)) ∷ []))

  abbrev of_deals : String → String → Bson D F
  of_deals operator path = one operator (utf8 path)

  -- $dateTrunc of the time of a deal to the minute.
  abbrev minute_of_deal : Bson D F
  minute_of_deal =
      one "$dateTrunc"
        (doc (("date", utf8 "$t") ∷ ("unit", utf8 "minute") ∷ ("binSize", int32 (pos 1)) ∷ []))

  unfoldable pub candle_group_stage : Bson D F
  candle_group_stage = one "$group" (
      doc (
        ("_id", doc (("s", utf8 "$data.market") ∷ ("t", minute_of_deal) ∷ []))
        ∷ ("o", of_deals "$last" "$data.price")
        ∷ ("h", of_deals "$max" "$data.price")
        ∷ ("l", of_deals "$min" "$data.price")
        ∷ ("c", of_deals "$first" "$data.price")
        ∷ ("v", of_deals "$sum" "$data.volume")
        ∷ []))

  unfoldable pub candle_project_stage : Bson D F
  candle_project_stage = one "$project" (
      doc (
        ("t", utf8 "$_id.t")
        ∷ ("s", utf8 "$_id.s")
        ∷ ("o", of_deals "$toDecimal" "$o")
        ∷ ("h", of_deals "$toDecimal" "$h")
        ∷ ("l", of_deals "$toDecimal" "$l")
        ∷ ("c", of_deals "$toDecimal" "$c")
        ∷ ("v", of_deals "$toDecimal" "$v")
        ∷ []))

  -- The pipeline of GenerateMinuteCandles.
  unfoldable pub minute_candles_pipeline : ℤ → ℤ → List (Bson D F)
  unfolding between_stage newest_first_stage candle_group_stage candle_project_stage
  minute_candles_pipeline from to =
      between_stage from to ∷ newest_first_stage ∷ candle_group_stage ∷ candle_project_stage ∷ []

  abbrev price_times_volume : Bson D F
  price_times_volume = one "$multiply" (items (utf8 "$data.price" ∷ utf8 "$data.volume" ∷ []))

  -- The sum over the deals whose buyer is the maker.
  abbrev sum_of_taken : Bson D F → Bson D F
  sum_of_taken value = one "$sum" (
      one "$switch" (
        doc (
          (
            "branches",
            items (
                doc (
                  ("case", one "$eq" (items (utf8 "$data.isbuyermaker" ∷ flag true ∷ [])))
                  ∷ ("then", value)
                  ∷ [])
                ∷ []),
          )
          ∷ ("default", int32 (pos 0))
          ∷ [])))

  unfoldable pub kline_group_stage : Bson D F
  kline_group_stage = one "$group" (
      doc (
        ("_id", doc (("symbol", utf8 "$data.market") ∷ ("openTime", minute_of_deal) ∷ []))
        ∷ ("first", of_deals "$last" "$t")
        ∷ ("last", of_deals "$first" "$t")
        ∷ ("open", of_deals "$last" "$data.price")
        ∷ ("high", of_deals "$max" "$data.price")
        ∷ ("low", of_deals "$min" "$data.price")
        ∷ ("close", of_deals "$first" "$data.price")
        ∷ ("volume", of_deals "$sum" "$data.volume")
        ∷ ("quotes", one "$sum" price_times_volume)
        ∷ ("trades", one "$count" (doc []))
        ∷ ("takerAssets", sum_of_taken (utf8 "$data.volume"))
        ∷ ("takerQuotes", sum_of_taken price_times_volume)
        ∷ []))

  unfoldable pub kline_project_stage : Bson D F
  kline_project_stage = one "$project" (
      doc (
        ("openTime", utf8 "$_id.openTime")
        ∷ (
          "closeTime",
          one "$dateAdd" (
              doc (
                ("startDate", utf8 "$_id.openTime")
                ∷ ("unit", utf8 "minute")
                ∷ ("amount", int32 (pos 1))
                ∷ [])),
        )
        ∷ ("first", utf8 "$first")
        ∷ ("last", utf8 "$last")
        ∷ ("symbol", utf8 "$_id.symbol")
        ∷ ("open", of_deals "$toDecimal" "$open")
        ∷ ("high", of_deals "$toDecimal" "$high")
        ∷ ("low", of_deals "$toDecimal" "$low")
        ∷ ("close", of_deals "$toDecimal" "$close")
        ∷ ("volume", of_deals "$toDecimal" "$volume")
        ∷ ("quotes", of_deals "$toDecimal" "$quotes")
        ∷ ("trades", utf8 "$trades")
        ∷ ("takerAssets", of_deals "$toDecimal" "$takerAssets")
        ∷ ("takerQuotes", of_deals "$toDecimal" "$takerQuotes")
        ∷ []))

  -- The pipeline of Get.
  unfoldable pub klines_pipeline : ℤ → ℤ → List (Bson D F)
  unfolding between_stage newest_first_stage kline_group_stage kline_project_stage
  klines_pipeline from to =
      between_stage from to ∷ newest_first_stage ∷ kline_group_stage ∷ kline_project_stage ∷ []

-- `failed` before the error of Aggregate or of the cursor's All.
unfoldable pub wrapped : {A : Type 0} → String → String → Result (Result (List A)) → Result (List A)
wrapped failed unread (err e) = err (text_append failed e)
wrapped failed unread (ok (err e)) = err (text_append unread e)
wrapped failed unread (ok (ok found)) = ok found

module _ {D F : Type 0} where
  unfoldable pub generate_minute_candles :
      (List (Bson D F) → Result (Result (List (MinuteCandle D))))
      → ℤ
      → ℤ
      → Result (List (MinuteCandle D))
  unfolding wrapped
  generate_minute_candles aggregate from to =
      wrapped "can't generate minute candle " "can't serialise candle "
        (aggregate (minute_candles_pipeline from to))

  -- Get of klines.
  unfoldable pub get_klines :
      (List (Bson D F) → Result (Result (List (Kline D)))) → ℤ → ℤ → Result (List (Kline D))
  unfolding wrapped
  get_klines aggregate from to =
      wrapped "failed apply a kline aggregation function on the collection. "
        "failed parse kline result to collection. " (aggregate (klines_pipeline from to))
