-- ===== src/Requests.antt =====
-- truncateInterval of api/http/handler/candle.go: the interval of a request, widened to whole candles.
pub mod Widening
pub mod Interval
pub mod Chart
pub mod Answers
use ohlcv.Base.{ℕ, ◌+◌, ◌-◌, ◌*◌, ◌/◌, ◌≡◌, Bool, String, ◌||◌, str_eq, if◌then◌else◌}
use ohlcv.Time.{day, truncate}
use ohlcv.Time.Calendar.{date_day, year_of_day, month_of_day}
use ohlcv.Resolution.Names.{text, candle_1mh, candle_1mh2}
use ohlcv.Resolution.Duration.{to_duration}

-- For times from the year 1 on: the start stops there, where Go's goes below. ToDuration is given the
-- month 0.
unfoldable pub truncate_interval : ℕ → ℕ → String → ℕ × ℕ
unfolding text
truncate_interval from to resolution =
    if str_eq resolution (text candle_1mh) || str_eq resolution (text candle_1mh2)
    then (
      date_day (year_of_day (from / day)) (month_of_day (from / day)) 1 * day,
      date_day (year_of_day (to / day)) (month_of_day (to / day) + 1) 1 * day - 1,
    )
    else let candle_duration = to_duration resolution 0 (year_of_day (from / day)) in
      (
        truncate (from - candle_duration) candle_duration,
        truncate (to + candle_duration) candle_duration,
      )
