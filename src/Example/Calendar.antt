-- ===== src/Example/Calendar.antt =====
-- The theorems on resolutions and their starts, applied to the examples.
use ohlcv.Base.{◌+◌, ◌≤◌, ℕ, ◌-◌, ◌*◌, ◌%◌, ◌≡◌, ◌≢◌, ◌⊎◌, inl, inr, arith}
use ohlcv.Time.{day, from_unix}
use ohlcv.Time.Calendar.{date_day}
use ohlcv.Resolution.Names.{named, named-text, text, candle_15m, candle_30m}
use ohlcv.Resolution.Duration.{duration, month_duration, to_duration, month_duration-date_day}
use ohlcv.Resolution.Units.{get_resolution, Gets, get_resolution-to_duration}
use ohlcv.Requests.{truncate_interval}
use ohlcv.Requests.Widening.{Widens, truncate_interval-Widens}
use ohlcv.Start.{get_resolution_start_timestamp_by_time}
use ohlcv.Start.Bounds.{Starts, get_resolution_start_timestamp_by_time-Starts}
use ohlcv.Example.{noon}

-- February 2100 has 28 days.
month_duration-date_day_example :
    ((month_duration 2 2100 ≡ (date_day 2100 3 1 - date_day 2100 2 1) * day)
      × ((◌≢◌ {A = ℕ} 2 2) ⊎ (2100 % 100 ≢ 0) ⊎ (2100 % 400 ≡ 0)))
    ⊎ ((month_duration 2 2100 ≡ (date_day 2100 3 1 - date_day 2100 2 1 + 1) * day)
        × (◌≡◌ {A = ℕ} 2 2)
        × (2100 % 100 ≡ 0)
        × (2100 % 400 ≢ 0))
month_duration-date_day_example =
    month_duration-date_day 2 2100 (omega arith) (omega arith) (omega arith)

get_resolution-to_duration_example :
    Gets candle_30m (get_resolution (text candle_30m)) (to_duration (text candle_30m) 2 2020)
get_resolution-to_duration_example =
    get_resolution-to_duration candle_30m 2 2020 (λ m. elim m [ inl e ↦ cc | inr e ↦ cc ])

get_resolution_start_timestamp_by_time-Starts_example :
    Starts
      (from_unix (get_resolution_start_timestamp_by_time (text candle_15m) noon))
      (to_duration (text candle_15m) 2 2020)
      noon
get_resolution_start_timestamp_by_time-Starts_example =
    get_resolution_start_timestamp_by_time-Starts (text candle_15m) candle_15m noon 2 2020
      (named-text candle_15m) tt

late : to_duration (text candle_15m) 2 2020 ≤ noon
unfolding to_duration duration named text
late = omega arith

truncate_interval-Widens_example :
    Widens
      (to_duration (text candle_15m) 2 2020)
      noon
      noon
      (truncate_interval noon noon (text candle_15m))
truncate_interval-Widens_example =
    truncate_interval-Widens noon noon (text candle_15m) candle_15m 2 2020 (named-text candle_15m)
      (λ m. elim m [ inl e ↦ cc | inr e ↦ cc ]) late
