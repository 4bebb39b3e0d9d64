-- ===== src/Current/Fresh.antt =====
-- The candle that buildFreshCandle makes, and the instant that it is made for.
use ohlcv.Base.{ℕ, ◌+◌, ◌-◌, ◌/◌, ◌≡◌, ◌≢◌, ◌↔◌, true, String, some, ◌≤ℤ◌, ◌<ℤ◌, arith, ◌≤◌, ◌<◌}
use ohlcv.Decimal.{Decimals}
use ohlcv.Time.{unix_nano, from_unix, day}
use ohlcv.Time.Calendar.{month_of_day, year_of_day}
use ohlcv.Start.{get_resolution_start_timestamp_by_time}
use ohlcv.Resolution.Names.{Named, named}
use ohlcv.Resolution.Duration.{to_duration, calculate_close_time}
use ohlcv.Candle.{contains_ts}
use ohlcv.Candle.Conversion.{contains_ts_iff}
use ohlcv.Start.Bounds.{IsIntraday, get_resolution_start_timestamp_by_time-Starts}
use ohlcv.Current.{build_fresh_candle}

unix_nano-le : (a b : ℕ) → (unix_nano a ≤ℤ unix_nano b) ↔ (a ≤ b)
unfolding unix_nano
unix_nano-le a b = ground arith

unix_nano-lt : (a b : ℕ) → (unix_nano a <ℤ unix_nano b) ↔ (a < b)
unfolding unix_nano
unix_nano-lt a b = ground arith

-- Within an interval whose close is its last instant, to be before the close is not to be at it.
before_close : (s d t : ℕ) → s ≤ t → t < s + d → ((s ≤ t) × (t < s + d - 1)) ↔ (t ≢ s + d - 1)
before_close s d t lo hi = ground arith

module _ {D S : Type 0} (dec : Decimals D S) where
  -- A fresh candle of at most a day contains the instant for which it was built, unless that is the
  -- last nanosecond of the interval, which is the candle's close.
  pub build_fresh_candle-contains_iff :
      (m r : String) (n : Named) (now : ℕ)
      → named r ≡ some n
      → IsIntraday n
      → (contains_ts (build_fresh_candle dec m r now) (unix_nano now) ≡ true)
        ↔ (now ≢ (build_fresh_candle dec m r now).close_time)
  unfolding build_fresh_candle calculate_close_time
  build_fresh_candle-contains_iff m r n now e h =
      let c = build_fresh_candle dec m r now in
      let opens = from_unix (get_resolution_start_timestamp_by_time r now) in
      let month = month_of_day (opens / day) in
      let year = year_of_day (opens / day) in
      let starts = get_resolution_start_timestamp_by_time-Starts r n now month year e h in
      let within = before_close opens (to_duration r month year) now starts.0 starts.1 in
      let holds = contains_ts_iff c (unix_nano now) in
      let lo = unix_nano-le opens now in
      let hi = unix_nano-lt now c.close_time in
      (
        (λ q. within.0 (lo.0 (holds.0 q).0, hi.0 (holds.0 q).1)),
        λ ne. holds.1 (lo.1 (within.1 ne).0, hi.1 (within.1 ne).1),
      )
