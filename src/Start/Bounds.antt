-- ===== src/Start/Bounds.antt =====
-- The interval that GetResolutionStartTimestampByTime starts holds the instant that it was asked for.
use mathlib.Core.Path.{◌∙◌}
use native.Mathlib.Nat.{le_trans, mod-le}
use ohlcv.Base.{ℕ, ◌+◌, ◌-◌, ◌*◌, ◌/◌, ◌%◌, ◌≤◌, ◌<◌, ◌≡◌, String, some, arith}
use ohlcv.Time.{second, minute, hour, from_unix, from_unix-unix}
use ohlcv.Resolution.Names.{
  Named, named, candle_1m, candle_3m, candle_5m, candle_15m, candle_30m, candle_1h, candle_2h,
  candle_4h, candle_6h, candle_12h, candle_1mh, candle_1d, candle_1h2, candle_2h2, candle_4h2,
  candle_6h2, candle_12h2, candle_1w, candle_1mh2,
}
use ohlcv.Resolution.Duration.{duration, to_duration}
use ohlcv.Start.{
  get_start_minute_ts, get_start_hour_ts, start_ts, get_resolution_start_timestamp_by_time,
}

floor_minute :
    (t r : ℕ)
    → r ≤ t / minute
    → (t - r * minute - (t - r * minute) % minute) / second * second ≡ (t / minute - r) * minute
floor_minute t r h = omega arith

floor_hour :
    (t r : ℕ)
    → r ≤ t / hour
    → (t - r * hour - (t - r * hour) % hour) / second * second ≡ (t / hour - r) * hour
floor_hour t r h = omega arith

mod_mod-le : (q n m : ℕ) → q % n % m ≤ q
mod_mod-le q n m = le_trans (mod-le (q % n) m) (mod-le q n)

minute_start :
    (m t : ℕ) → from_unix (get_start_minute_ts t m) ≡ (t / minute - t / minute % 60 % m) * minute
unfolding get_start_minute_ts
minute_start m t = from_unix-unix _ ∙ floor_minute t _ (mod_mod-le (t / minute) 60 m)

hour_start : (h t : ℕ) → from_unix (get_start_hour_ts t h) ≡ (t / hour - t / hour % 24 % h) * hour
unfolding get_start_hour_ts
hour_start h t = from_unix-unix _ ∙ floor_hour t _ (mod_mod-le (t / hour) 24 h)

-- The instant lies in the interval of the given length from the start, and the start is a multiple
-- of the length.
abbrev pub Starts : ℕ → ℕ → ℕ → Type 0
Starts s d t = (s ≤ t) × (t < s + d) × (s % d ≡ 0)

-- The resolutions whose intervals all have one length of at most a day.
abbrev pub IsIntraday : Named → Type 0
IsIntraday candle_1mh = ⊥
IsIntraday candle_1mh2 = ⊥
IsIntraday candle_1w = ⊥
IsIntraday _ = Unit

start_ts-Starts :
    (n : Named) (t month year : ℕ)
    → IsIntraday n
    → Starts (from_unix (start_ts (some n) t)) (duration n month year) t
unfolding start_ts duration
start_ts-Starts candle_1m t month year h = omega (arith, minute_start 1 t)
start_ts-Starts candle_3m t month year h = omega (arith, minute_start 3 t)
start_ts-Starts candle_5m t month year h = omega (arith, minute_start 5 t)
start_ts-Starts candle_15m t month year h = omega (arith, minute_start 15 t)
start_ts-Starts candle_30m t month year h = omega (arith, minute_start 30 t)
start_ts-Starts candle_1h t month year h = omega (arith, hour_start 1 t)
start_ts-Starts candle_1h2 t month year h = omega (arith, hour_start 1 t)
start_ts-Starts candle_2h t month year h = omega (arith, hour_start 2 t)
start_ts-Starts candle_2h2 t month year h = omega (arith, hour_start 2 t)
start_ts-Starts candle_4h t month year h = omega (arith, hour_start 4 t)
start_ts-Starts candle_4h2 t month year h = omega (arith, hour_start 4 t)
start_ts-Starts candle_6h t month year h = omega (arith, hour_start 6 t)
start_ts-Starts candle_6h2 t month year h = omega (arith, hour_start 6 t)
start_ts-Starts candle_12h t month year h = omega (arith, hour_start 12 t)
start_ts-Starts candle_12h2 t month year h = omega (arith, hour_start 12 t)
start_ts-Starts candle_1d t month year h = omega (arith, hour_start 24 t)
start_ts-Starts candle_1mh t month year h = absurd h
start_ts-Starts candle_1mh2 t month year h = absurd h
start_ts-Starts candle_1w t month year h = absurd h

-- For a resolution of at most a day, the start that the code finds for an instant is a multiple of
-- the resolution's duration, is not after the instant, and is less than a duration before it.
pub get_resolution_start_timestamp_by_time-Starts :
    (r : String) (n : Named) (t month year : ℕ)
    → named r ≡ some n
    → IsIntraday n
    → Starts (from_unix (get_resolution_start_timestamp_by_time r t)) (to_duration r month year) t
unfolding get_resolution_start_timestamp_by_time to_duration
get_resolution_start_timestamp_by_time-Starts r n t month year e h =
    rw e (start_ts-Starts n t month year h)
