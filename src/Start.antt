-- ===== src/Start.antt =====
-- Where a resolution's current interval starts: GetResolutionStartTimestampByTime of
-- candle/aggregator.go and the helpers under it.
pub mod Week
pub mod Bounds
use ohlcv.Base.{
  ℕ, zero, suc, ◌+◌, ◌-◌, ◌*◌, ◌/◌, ◌%◌, ◌≡◌, refl, String, Option, none, some, ltb, ◌==◌,
  if◌then◌else◌, ℤ, pos,
}
use ohlcv.Time.{second, minute, hour, day, unix, truncate, minute_of, hour_of}
use ohlcv.Time.Calendar.{date_day, year_of_day, month_of_day, iso_year, iso_week}
use ohlcv.Resolution.Names.{
  Named, named, candle_1m, candle_3m, candle_5m, candle_15m, candle_30m, candle_1h, candle_2h,
  candle_4h, candle_6h, candle_12h, candle_1mh, candle_1d, candle_1h2, candle_2h2, candle_4h2,
  candle_6h2, candle_12h2, candle_1w, candle_1mh2,
}
use Week.{first_day_of_iso_week}

unfoldable pub get_start_minute_ts : ℕ → ℕ → ℤ
unfolding unix truncate minute_of
get_start_minute_ts t m = unix (truncate (t - minute_of t % m * minute) minute)

unfoldable pub get_start_hour_ts : ℕ → ℕ → ℤ
unfolding unix truncate hour_of
get_start_hour_ts t h = unix (truncate (t - hour_of t % h * hour) hour)

unfoldable pub get_start_month_ts : ℕ → ℤ
unfolding unix
get_start_month_ts t = unix (date_day (year_of_day (t / day)) (month_of_day (t / day)) 1 * day)

unfoldable pub get_start_week_ts : ℕ → ℤ
unfolding unix
get_start_week_ts t = unix (first_day_of_iso_week (iso_year (t / day)) (iso_week (t / day)) * day)

-- The switch, by the constant that it meets.
unfoldable pub start_ts : Option Named → ℕ → ℤ
unfolding get_start_minute_ts get_start_hour_ts get_start_month_ts get_start_week_ts
start_ts (some candle_1m) t = get_start_minute_ts t 1
start_ts (some candle_3m) t = get_start_minute_ts t 3
start_ts (some candle_5m) t = get_start_minute_ts t 5
start_ts (some candle_15m) t = get_start_minute_ts t 15
start_ts (some candle_30m) t = get_start_minute_ts t 30
start_ts (some candle_1h) t = get_start_hour_ts t 1
start_ts (some candle_1h2) t = get_start_hour_ts t 1
start_ts (some candle_2h) t = get_start_hour_ts t 2
start_ts (some candle_2h2) t = get_start_hour_ts t 2
start_ts (some candle_4h) t = get_start_hour_ts t 4
start_ts (some candle_4h2) t = get_start_hour_ts t 4
start_ts (some candle_6h) t = get_start_hour_ts t 6
start_ts (some candle_6h2) t = get_start_hour_ts t 6
start_ts (some candle_12h) t = get_start_hour_ts t 12
start_ts (some candle_12h2) t = get_start_hour_ts t 12
start_ts (some candle_1d) t = get_start_hour_ts t 24
start_ts (some candle_1mh) t = get_start_month_ts t
start_ts (some candle_1mh2) t = get_start_month_ts t
start_ts (some candle_1w) t = get_start_week_ts t
start_ts none t = pos 0

unfoldable pub get_resolution_start_timestamp_by_time : String → ℕ → ℤ
unfolding start_ts
get_resolution_start_timestamp_by_time r t = start_ts (named r) t
