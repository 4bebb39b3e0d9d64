-- ===== src/Aggregate.antt =====
-- candle/aggregator.go: candles are gathered into the charts of longer resolutions.
pub mod Grouping
pub mod Points
pub mod Pairs
use ohlcv.Base.{
  ℕ, ◌-◌, ◌*◌, ◌/◌, ◌%◌, Bool, String, List, [], ◌∷◌, ◌++◌, Option, none, some, ℤ, pos, negsuc,
  ltb_ℤ, eqb_ℤ, Result, ok, err, if◌then◌else◌,
}
use ohlcv.Time.{minute, hour, day, unix, truncate, minute_of, hour_of}
use ohlcv.Time.Calendar.{date_day, year_of_day, month_of_day, iso_year, iso_week}
use ohlcv.Resolution.Names.{
  Named, named, candle_1m, candle_3m, candle_5m, candle_15m, candle_30m, candle_1h, candle_2h,
  candle_4h, candle_6h, candle_12h, candle_1mh, candle_1d, candle_1h2, candle_2h2, candle_4h2,
  candle_6h2, candle_12h2, candle_1w, candle_1mh2,
}
use ohlcv.Decimal.{Decimals}
use ohlcv.Decimal.Compare.{compare_decimal128}
use ohlcv.Candle.{Candle, Chart, empty_candle, set_market, set_resolution}
use ohlcv.Start.Week.{first_day_of_iso_week}

-- A map[int64]*domain.Candle, by when its keys were first written.
abbrev pub Buckets : Type 0 → Type 0
Buckets D = List (ℤ × Candle D)

-- The value beside an error that is not looked at.
abbrev pub value_or {ℓ} : {A : Type ℓ} → A → Result A → A
value_or a (ok b) = b
value_or a (err e) = a

module _ {D : Type 0} where
  -- `result[timestamp]`, where `none` is nil.
  unfoldable pub bucket : ℤ → Buckets D → Option (Candle D)
  bucket ts [] = none
  bucket ts ((key, candle) ∷ rest) = if eqb_ℤ key ts then some candle else bucket ts rest

  -- `result[timestamp] = candle`
  unfoldable pub put : ℤ → Candle D → Buckets D → Buckets D
  put ts candle [] = (ts, candle) ∷ []
  put ts candle ((key, old) ∷ rest) =
      if eqb_ℤ key ts then (ts, candle) ∷ rest else (key, old) ∷ put ts candle rest

  -- domain.Chart{}
  abbrev pub empty_chart : Chart D
  empty_chart = record {
    symbol = "";
    resolution = "";
    o = [];
    h = [];
    l = [];
    c = [];
    v = [];
    t = [];
  }

  -- The body of GenerateChart's loop.
  abbrev pub append_point : Chart D → ℤ × Candle D → Chart D
  append_point chart (t, candle) = record chart {
    o = chart.o ++ candle.opening ∷ [];
    h = chart.h ++ candle.high ∷ [];
    l = chart.l ++ candle.low ∷ [];
    c = chart.c ++ candle.closing ∷ [];
    v = chart.v ++ candle.volume ∷ [];
    t = chart.t ++ t ∷ [];
  }

  -- The loop, over the entries in the order that the range takes.
  append_all : Chart D → Buckets D → Chart D
  append_all chart [] = chart
  append_all chart (entry ∷ rest) = append_all (append_point chart entry) rest

  unfoldable pub generate_chart : Buckets D → Chart D
  unfolding append_all
  generate_chart result = append_all empty_chart result

-- The timestamps of the candles' intervals.
module _ {D : Type 0} where
  unfoldable pub minute_key : ℕ → Candle D → ℤ
  minute_key m candle = unix (candle.open_time - minute_of candle.open_time % m * minute)

  unfoldable pub hour_key : ℕ → Candle D → ℤ
  hour_key h candle = unix (truncate (candle.open_time - hour_of candle.open_time % h * hour) hour)

  unfoldable pub month_key : Candle D → ℤ
  month_key candle =
      let d = candle.open_time / day in unix (date_day (year_of_day d) (month_of_day d) 1 * day)

  unfoldable pub week_key : Candle D → ℤ
  week_key candle =
      let d = candle.open_time / day in unix (first_day_of_iso_week (iso_year d) (iso_week d) * day)

module _ {D S : Type 0} (dec : Decimals D S) where
  unfoldable pub compare : Candle D → Candle D → Candle D
  unfolding empty_candle
  compare c candle =
      let earlier = ltb_ℤ (unix c.open_time) (unix candle.open_time) in
      let high_cmp = value_or (pos 0) (compare_decimal128 dec c.high candle.high) in
      let low_cmp = value_or (pos 0) (compare_decimal128 dec c.low candle.low) in
      let dv1 = value_or dec.empty_sum (dec.new_from_string (dec.to_text c.volume)) in
      let dv2 = value_or dec.empty_sum (dec.new_from_string (dec.to_text candle.volume)) in
      record (empty_candle dec.empty) {
        opening = if earlier then c.opening else candle.opening;
        closing = if earlier then candle.closing else c.closing;
        high = if eqb_ℤ high_cmp (negsuc 0) then candle.high else dec.empty;
        low = if eqb_ℤ low_cmp (pos 1) then candle.low else dec.empty;
        volume = value_or dec.empty (dec.parse_decimal128 (dec.sum_text (dec.add dv1 dv2)));
        open_time = candle.open_time;
      }

  -- The candle that the body of a loop puts into a bucket.
  abbrev pub compared : Option (Candle D) → Candle D → Candle D
  compared none candle = candle
  compared (some c) candle = compare c candle

  -- The loop of the hours, the months and the weeks, by the timestamp that each computes.
  unfoldable pub group_by : (Candle D → ℤ) → List (Candle D) → Buckets D → Buckets D
  group_by key [] result = result
  group_by key (candle ∷ candles) result =
      group_by key candles (put (key candle) (compared (bucket (key candle) result) candle) result)

  -- The loop of the minutes, which writes the bucket of the current time again.
  unfoldable pub group_minutes : ℕ → ℤ → List (Candle D) → Buckets D → Buckets D
  unfolding minute_key
  group_minutes m current_ts [] result = result
  group_minutes m current_ts (candle ∷ candles) result =
      let timestamp = minute_key m candle in
      let compared_candle = compared (bucket timestamp result) candle in
      let stored = put timestamp compared_candle result in
      group_minutes m current_ts candles
        (if eqb_ℤ current_ts timestamp then put current_ts compared_candle stored else stored)

-- `range_over` is the order in which Go's range takes a map.
module _ {D S : Type 0} (dec : Decimals D S) (range_over : Buckets D → Buckets D) where
  unfoldable pub aggregate_min_candles_to_chart : List (Candle D) → ℕ → ℕ → Chart D
  unfolding group_minutes
  aggregate_min_candles_to_chart candles m now =
      let current_ts = unix (now - minute_of now % m * minute) in
      generate_chart (range_over (group_minutes dec m current_ts candles []))

  unfoldable pub aggregate_hours_candles_to_chart : List (Candle D) → ℕ → Chart D
  unfolding group_by
  aggregate_hours_candles_to_chart candles h =
      generate_chart (range_over (group_by dec (hour_key h) candles []))

  unfoldable pub aggregate_month_candles_to_chart : List (Candle D) → Chart D
  unfolding group_by
  aggregate_month_candles_to_chart candles =
      generate_chart (range_over (group_by dec month_key candles []))

  unfoldable pub aggregate_week_candles_to_chart : List (Candle D) → Chart D
  unfolding group_by
  aggregate_week_candles_to_chart candles =
      generate_chart (range_over (group_by dec week_key candles []))

  -- The switch, by the constant that it meets; its default leaves the chart nil.
  unfoldable pub aggregate_named : Named → List (Candle D) → ℕ → Chart D
  unfolding aggregate_min_candles_to_chart aggregate_hours_candles_to_chart
      aggregate_month_candles_to_chart aggregate_week_candles_to_chart
  aggregate_named candle_1m candles now = aggregate_min_candles_to_chart candles 1 now
  aggregate_named candle_3m candles now = aggregate_min_candles_to_chart candles 3 now
  aggregate_named candle_5m candles now = aggregate_min_candles_to_chart candles 5 now
  aggregate_named candle_15m candles now = aggregate_min_candles_to_chart candles 15 now
  aggregate_named candle_30m candles now = aggregate_min_candles_to_chart candles 30 now
  aggregate_named candle_1h candles now = aggregate_hours_candles_to_chart candles 1
  aggregate_named candle_1h2 candles now = aggregate_hours_candles_to_chart candles 1
  aggregate_named candle_2h candles now = aggregate_hours_candles_to_chart candles 2
  aggregate_named candle_2h2 candles now = aggregate_hours_candles_to_chart candles 2
  aggregate_named candle_4h candles now = aggregate_hours_candles_to_chart candles 4
  aggregate_named candle_4h2 candles now = aggregate_hours_candles_to_chart candles 4
  aggregate_named candle_6h candles now = aggregate_hours_candles_to_chart candles 6
  aggregate_named candle_6h2 candles now = aggregate_hours_candles_to_chart candles 6
  aggregate_named candle_12h candles now = aggregate_hours_candles_to_chart candles 12
  aggregate_named candle_12h2 candles now = aggregate_hours_candles_to_chart candles 12
  aggregate_named candle_1d candles now = aggregate_hours_candles_to_chart candles 24
  aggregate_named candle_1mh candles now = aggregate_month_candles_to_chart candles
  aggregate_named candle_1mh2 candles now = aggregate_month_candles_to_chart candles
  aggregate_named candle_1w candles now = aggregate_week_candles_to_chart candles

  -- `none` is a nil slice of candles, and a nil chart.
  unfoldable pub aggregate_candle_to_chart_by_resolution :
      Option (List (Candle D)) → String → String → ℕ → Option (Chart D)
  unfolding aggregate_named
  aggregate_candle_to_chart_by_resolution none market resolution now = some empty_chart
  aggregate_candle_to_chart_by_resolution (some candles) market resolution now =
      elim (named resolution) [
        | none ↦ none
        | some n ↦
            some (set_resolution (set_market (aggregate_named n candles now) market) resolution)
      ]
