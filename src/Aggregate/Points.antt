-- ===== src/Aggregate/Points.antt =====
-- The points of the charts that AggregateCandleToChartByResolution makes.
use mathlib.Core.List.{append_assoc, append-nil}
use ohlcv.Base.{
  ℕ, ◌*◌, ◌-◌, ◌%◌, ◌≡◌, refl, sym, ◌∙◌, ap, String, List, [], ◌∷◌, ◌++◌, map, some, ℤ, eqb_ℤ, All,
  arith,
}
use ohlcv.Time.{minute, unix, truncate, minute_of}
use ohlcv.Resolution.Names.{
  Named, named, candle_1m, candle_3m, candle_5m, candle_15m, candle_30m, candle_1h, candle_2h,
  candle_4h, candle_6h, candle_12h, candle_1mh, candle_1d, candle_1h2, candle_2h2, candle_4h2,
  candle_6h2, candle_12h2, candle_1w, candle_1mh2,
}
use ohlcv.Decimal.{Decimals}
use ohlcv.Candle.{Candle, Chart, set_market, set_resolution}
use ohlcv.Start.{
  get_start_hour_ts, get_start_month_ts, get_start_week_ts, get_start_minute_ts, start_ts,
  get_resolution_start_timestamp_by_time,
}
use ohlcv.Aggregate.{
  Buckets, bucket, group_by, append_all, append_point, generate_chart, empty_chart, minute_key,
  hour_key, month_key, week_key, aggregate_min_candles_to_chart, aggregate_hours_candles_to_chart,
  aggregate_month_candles_to_chart, aggregate_week_candles_to_chart, aggregate_named,
  aggregate_candle_to_chart_by_resolution,
}
use ohlcv.Aggregate.Grouping.{
  select, merged, HasKeysOnce, bucket-group_by, group_by-HasKeysOnce, group_minutes-group_by,
}

whole_minutes :
    (t r : ℕ) → t % minute ≡ 0 → t - r * minute ≡ t - r * minute - (t - r * minute) % minute
whole_minutes t r h = omega arith

module _ {D : Type 0} where
  -- The chart has one point for each entry, in their order.
  pub record Tabulates (es : Buckets D) (k : Chart D) : Type 0 where
    pub o : k.o ≡ map (λ e. e.1.opening) es
    pub h : k.h ≡ map (λ e. e.1.high) es
    pub l : k.l ≡ map (λ e. e.1.low) es
    pub c : k.c ≡ map (λ e. e.1.closing) es
    pub v : k.v ≡ map (λ e. e.1.volume) es
    pub t : k.t ≡ map (λ e. e.0) es

  append_all-column :
      {A : Type 0} (column : Chart D → List A) (cell : ℤ × Candle D → A)
      → ((k : Chart D) (e : ℤ × Candle D) → column (append_point k e) ≡ column k ++ cell e ∷ [])
      → (k : Chart D) (es : Buckets D) → column (append_all k es) ≡ column k ++ map cell es
  unfolding append_all
  append_all-column column cell one k [] = sym (append-nil (column k))
  append_all-column column cell one k (e ∷ es) =
      append_all-column column cell one (append_point k e) es
      ∙ ap (λ xs. xs ++ map cell es) (one k e)
      ∙ append_assoc (column k) (cell e ∷ []) (map cell es)

  generate_chart-Tabulates : (es : Buckets D) → Tabulates es (generate_chart es)
  unfolding generate_chart
  generate_chart-Tabulates es = record {
    o = append_all-column (λ k. k.o) (λ e. e.1.opening) (λ k e. refl) empty_chart es;
    h = append_all-column (λ k. k.h) (λ e. e.1.high) (λ k e. refl) empty_chart es;
    l = append_all-column (λ k. k.l) (λ e. e.1.low) (λ k e. refl) empty_chart es;
    c = append_all-column (λ k. k.c) (λ e. e.1.closing) (λ k e. refl) empty_chart es;
    v = append_all-column (λ k. k.v) (λ e. e.1.volume) (λ k e. refl) empty_chart es;
    t = append_all-column (λ k. k.t) (λ e. e.0) (λ k e. refl) empty_chart es;
  }

  -- A range over a map takes each key once, with the value that the map has there.
  abbrev pub IsRange : (Buckets D → Buckets D) → Type 0
  IsRange range_over =
      (b : Buckets D)
      → HasKeysOnce b
      → HasKeysOnce (range_over b) × ((ts : ℤ) → bucket ts (range_over b) ≡ bucket ts b)

  abbrev pub IsWholeMinute : Candle D → Type 0
  IsWholeMinute c = c.open_time % minute ≡ 0

  -- At a whole minute, the timestamp of the minutes is the start of the interval.
  minute_key-start :
      (m : ℕ) (c : Candle D) → IsWholeMinute c → minute_key m c ≡ get_start_minute_ts c.open_time m
  unfolding minute_key get_start_minute_ts minute_of truncate
  minute_key-start m c h = ap unix (whole_minutes c.open_time (minute_of c.open_time % m) h)

module _ {D S : Type 0} (dec : Decimals D S) where
  group_by-eq :
      (key key' : Candle D → ℤ) (cs : List (Candle D)) (b : Buckets D)
      → All (λ c. key c ≡ key' c) cs
      → group_by dec key cs b ≡ group_by dec key' cs b
  unfolding group_by
  group_by-eq key key' [] b h = refl
  group_by-eq key key' (c ∷ cs) b h = rw (h.0) (group_by-eq key key' cs _ h.1)

  -- The start of the interval of the resolution that a candle opens in.
  abbrev pub start_of : Named → Candle D → ℤ
  start_of n c = start_ts (some n) c.open_time

  starts_at_minute :
      (m : ℕ) (cs : List (Candle D))
      → All IsWholeMinute cs
      → All (λ c. minute_key m c ≡ get_start_minute_ts c.open_time m) cs
  starts_at_minute m [] h = tt
  starts_at_minute m (c ∷ cs) h = (minute_key-start m c h.0, starts_at_minute m cs h.1)

  module _ (range_over : Buckets D → Buckets D) where
    -- The chart of the candles, each in the bucket of the key.
    abbrev chart_by : (Candle D → ℤ) → List (Candle D) → Chart D
    chart_by key cs = generate_chart (range_over (group_by dec key cs []))

    minutes_chart :
        (m : ℕ) (cs : List (Candle D)) (now : ℕ)
        → All IsWholeMinute cs
        → aggregate_min_candles_to_chart dec range_over cs m now
          ≡ chart_by (λ c. get_start_minute_ts c.open_time m) cs
    unfolding aggregate_min_candles_to_chart
    minutes_chart m cs now h =
        ap (λ b. generate_chart (range_over b))
          (group_minutes-group_by dec m (unix (now - minute_of now % m * minute)) cs []
            ∙ group_by-eq (minute_key m) (λ c. get_start_minute_ts c.open_time m) cs []
                (starts_at_minute m cs h))

    -- Every case of the switch gathers the candles by the starts of their intervals.
    named_chart :
        (n : Named) (cs : List (Candle D)) (now : ℕ)
        → All IsWholeMinute cs
        → aggregate_named dec range_over n cs now ≡ chart_by (start_of n) cs
    unfolding aggregate_named aggregate_hours_candles_to_chart aggregate_month_candles_to_chart
        aggregate_week_candles_to_chart start_ts hour_key month_key week_key get_start_hour_ts
        get_start_month_ts get_start_week_ts
    named_chart candle_1m cs now h = minutes_chart 1 cs now h
    named_chart candle_3m cs now h = minutes_chart 3 cs now h
    named_chart candle_5m cs now h = minutes_chart 5 cs now h
    named_chart candle_15m cs now h = minutes_chart 15 cs now h
    named_chart candle_30m cs now h = minutes_chart 30 cs now h
    named_chart candle_1h cs now h = refl
    named_chart candle_2h cs now h = refl
    named_chart candle_4h cs now h = refl
    named_chart candle_6h cs now h = refl
    named_chart candle_12h cs now h = refl
    named_chart candle_1mh cs now h = refl
    named_chart candle_1d cs now h = refl
    named_chart candle_1h2 cs now h = refl
    named_chart candle_2h2 cs now h = refl
    named_chart candle_4h2 cs now h = refl
    named_chart candle_6h2 cs now h = refl
    named_chart candle_12h2 cs now h = refl
    named_chart candle_1w cs now h = refl
    named_chart candle_1mh2 cs now h = refl

    -- A chart for the market and the resolution, of the entries that the range takes.
    pub record ChartOf (market r : String) (cs : List (Candle D)) (k : Chart D) : Type 0 where
      pub symbol : k.symbol ≡ market
      pub resolution : k.resolution ≡ r
      pub entries : Buckets D
      pub tabulates : Tabulates entries k
      pub keys_once : HasKeysOnce entries
      pub each_bucket :
          (ts : ℤ)
          → bucket ts entries
            ≡ merged dec
                (select (λ c. eqb_ℤ (get_resolution_start_timestamp_by_time r c.open_time) ts) cs)

    -- For candles that open at whole minutes and a declared resolution, the chart has one point for
    -- each start of an interval in which a candle opens: the candles of that interval, in their
    -- order, the first compared with each of the others in turn.
    pub aggregate_candle_to_chart_by_resolution-ChartOf :
        (market r : String) (n : Named) (cs : List (Candle D)) (now : ℕ)
        → IsRange range_over
        → named r ≡ some n
        → All IsWholeMinute cs
        → (k : Chart D) × (aggregate_candle_to_chart_by_resolution dec range_over
              (some cs)
              market
              r
              now
            ≡ some k)
          × ChartOf market r cs k
    unfolding aggregate_candle_to_chart_by_resolution set_market set_resolution
        get_resolution_start_timestamp_by_time
    aggregate_candle_to_chart_by_resolution-ChartOf market r n cs now range e h =
        let b = group_by dec (start_of n) cs [] in
        let ranged = range b (group_by-HasKeysOnce dec (start_of n) cs [] tt) in
        let table = generate_chart-Tabulates (range_over b) in
        (
          record (chart_by (start_of n) cs) { symbol = market; resolution = r },
          rw (e, aggregate_candle_to_chart_by_resolution)
              (ap (λ k. some (set_resolution (set_market k market) r)) (named_chart n cs now h)),
          record {
            symbol = refl;
            resolution = refl;
            entries = range_over b;
            tabulates = record {
              o = table.o;
              h = table.h;
              l = table.l;
              c = table.c;
              v = table.v;
              t = table.t;
            };
            keys_once = ranged.0;
            each_bucket = λ ts.
                ranged.1 ts
                ∙ bucket-group_by dec (start_of n) ts cs
                ∙ ap (λ o. merged dec (select (λ c. eqb_ℤ (start_ts o c.open_time) ts) cs)) (sym e);
          },
        )
