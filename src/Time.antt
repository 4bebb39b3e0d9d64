-- ===== src/Time.antt =====
-- What the service uses of Go's package time. A time.Time is its number of nanoseconds since the
-- zero Time, 0001-01-01T00:00:00 UTC, which is where Truncate counts from too. time.Local is UTC.
pub mod Calendar
use ohlcv.Base.{
  ℕ, ◌+◌, ◌-◌, ◌*◌, ◌/◌, ◌%◌, ◌≤◌, ◌<◌, ◌≡◌, arith, ℤ, pos, pos_part, sub_ℕ, ◌+ℤ◌, ◌==◌,
  if◌then◌else◌,
}

abbrev pub second : ℕ
second = 1_000_000_000

abbrev pub minute : ℕ
minute = 60_000_000_000

abbrev pub hour : ℕ
hour = 3_600_000_000_000

abbrev pub day : ℕ
day = 86_400_000_000_000

-- The seconds and the nanoseconds from the zero Time to 1970-01-01.
abbrev pub epoch_seconds : ℕ
epoch_seconds = 62_135_596_800

abbrev pub epoch : ℕ
epoch = 62_135_596_800_000_000_000

-- t.Unix(), t.UnixNano() and t.UnixMilli(), where they fit an int64.
unfoldable pub unix : ℕ → ℤ
unix t = sub_ℕ (t / second) epoch_seconds

unfoldable pub unix_nano : ℕ → ℤ
unix_nano t = sub_ℕ t epoch

-- time.Unix(s, 0) and time.Unix(0, n), for a time from year 1 on that does not wrap in Go; an earlier
-- one stops at the year 1.
unfoldable pub from_unix : ℤ → ℕ
from_unix s = pos_part (pos epoch_seconds +ℤ s) * second

unfoldable pub from_unix_nano : ℤ → ℕ
from_unix_nano n = pos_part (pos epoch +ℤ n)

-- t.Minute() and t.Hour().
unfoldable pub minute_of : ℕ → ℕ
minute_of t = t / minute % 60

unfoldable pub hour_of : ℕ → ℕ
hour_of t = t / hour % 24

-- t.Truncate(d): a duration that is not positive leaves t as it is.
unfoldable pub truncate : ℕ → ℕ → ℕ
truncate t d = if d == 0 then t else t - t % d

-- Going through Unix seconds drops the part below a second.
pub from_unix-unix : (t : ℕ) → from_unix (unix t) ≡ t / second * second
unfolding from_unix unix ◌+ℤ◌
from_unix-unix t = ground arith
