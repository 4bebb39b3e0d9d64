-- ===== src/Service.antt =====
-- candle/candle.go and candle/storage.go: charts from the deals in Mongo. Mongo is a parameter, which
-- answers a query with what Aggregate and cursor.All come to: the decoded charts, or an error.
pub mod Bins
pub mod Answers
pub mod Pipeline
use ohlcv.Base.{
  ℕ, ◌≡◌, Bool, String, List, [], ◌∷◌, map, Option, none, some, ℤ, Result, ok, err, Run, done,
  panic, then_run,
}
use ohlcv.Time.{from_unix}
use ohlcv.Resolution.Names.{
  Named, named, candle_1m, candle_3m, candle_5m, candle_15m, candle_30m, candle_1h, candle_2h,
  candle_4h, candle_6h, candle_12h, candle_1mh, candle_1d, candle_1h2, candle_2h2, candle_4h2,
  candle_6h2, candle_12h2, candle_1w, candle_1mh2,
}
use ohlcv.Candle.{Chart, set_market, set_resolution}
use ohlcv.Start.{get_resolution_start_timestamp_by_time}

-- The values that the pipeline of GetCandles is built from: the market and the two ends of
-- matchStage, the unit and the bin size of firstGroupStage.
pub record Query : Type 0 where
  pub market : String
  pub unit : String
  pub unit_size : ℕ
  pub from : ℕ
  pub to : ℕ

-- domain.ChartResponse, without the resolution, which is never set. `F` is float64.
pub record ChartResponse (F : Type 0) : Type 0 where
  pub symbol : String
  pub o : List F
  pub h : List F
  pub l : List F
  pub c : List F
  pub v : List F
  pub t : List ℤ

-- The unit and the bin size of each case of GetCandleByResolution.
unfoldable pub bins_of : Named → String × ℕ
bins_of candle_1m = ("minute", 1)
bins_of candle_3m = ("minute", 3)
bins_of candle_5m = ("minute", 5)
bins_of candle_15m = ("minute", 15)
bins_of candle_30m = ("minute", 30)
bins_of candle_1h = ("hour", 1)
bins_of candle_1h2 = ("hour", 1)
bins_of candle_2h = ("hour", 2)
bins_of candle_2h2 = ("hour", 2)
bins_of candle_4h = ("hour", 4)
bins_of candle_4h2 = ("hour", 4)
bins_of candle_6h = ("hour", 6)
bins_of candle_6h2 = ("hour", 6)
bins_of candle_12h = ("hour", 12)
bins_of candle_12h2 = ("hour", 12)
bins_of candle_1d = ("day", 1)
bins_of candle_1mh = ("month", 1)
bins_of candle_1mh2 = ("month", 1)
bins_of candle_1w = ("week", 1)

module _ {D : Type 0} (aggregate : Query → Result (List (Chart D))) where
  -- The chart that the answer holds, if any.
  first_chart : String → Result (List (Chart D)) → Option (Chart D)
  first_chart market (err e) = none
  first_chart market (ok []) = none
  first_chart market (ok (chart ∷ charts)) = some (set_market chart market)

  unfoldable pub get_candles : String → String → ℕ → ℕ → ℕ → Option (Chart D)
  unfolding first_chart
  get_candles market unit unit_size from to = first_chart market (
      aggregate
        (record { market = market; unit = unit; unit_size = unit_size; from = from; to = to }))

  -- The default case reads a field of the chart, which is nil there.
  unfoldable pub get_candle_by_resolution : String → String → ℕ → ℕ → Run (Option (Chart D))
  unfolding bins_of get_candles
  get_candle_by_resolution market resolution from to = elim (named resolution) [
    | none ↦ panic
    | some n ↦ elim (get_candles market (bins_of n).0 (bins_of n).1 from to) [
      | none ↦ done none
      | some chart ↦ done (some (set_resolution chart resolution))
    ]
  ]

  -- `now` and `later` are what time.Now() answers, first for the start and then for the end.
  unfoldable pub get_current_candle : String → String → ℕ → ℕ → Run (Option (Chart D))
  unfolding get_candle_by_resolution
  get_current_candle market resolution now later =
      let start = from_unix (get_resolution_start_timestamp_by_time resolution now) in
      then_run (get_candle_by_resolution market resolution start later) (λ found. elim found [
        | none ↦ done none
        | some chart ↦ done (some (set_resolution (set_market chart market) resolution))
      ])

-- `to_float` is strconv.ParseFloat of a decimal's String, 0 where that fails, and `zero_float` is
-- what make fills a slice with.
module _ {D F : Type 0} (to_float : D → F) (zero_float : F) where
  -- The loop of MakeChartResponse for one column: it runs over the volumes, whose length is the
  -- second argument's, and reads past the end of a column that is shorter.
  unfoldable pub fill : List D → List D → Run (List F)
  fill column [] = done (map (λ d. zero_float) column)
  fill [] (v ∷ vs) = panic
  fill (d ∷ column) (v ∷ vs) = then_run (fill column vs) (λ rest. done (to_float d ∷ rest))

  unfoldable pub make_chart_response : String → Option (Chart D) → Run (ChartResponse F)
  unfolding fill
  make_chart_response market none =
      done (record { symbol = market; o = []; h = []; l = []; c = []; v = []; t = [] })
  make_chart_response market (some chart) = then_run (fill chart.o chart.v) (λ o.
      then_run (fill chart.h chart.v) (λ h. then_run (fill chart.l chart.v) (λ l.
        then_run (fill chart.c chart.v) (λ c. then_run (fill chart.v chart.v) (λ v.
          done
            (record { symbol = chart.symbol; o = o; h = h; l = l; c = c; v = v; t = chart.t }))))))

  unfoldable pub get_chart :
      (Query → Result (List (Chart D))) → String → String → ℕ → ℕ → Run (ChartResponse F)
  unfolding get_candle_by_resolution make_chart_response
  get_chart aggregate market resolution from to =
      then_run (get_candle_by_resolution aggregate market resolution from to)
        (make_chart_response market)
