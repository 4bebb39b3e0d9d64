-- ===== src/Resolution/Duration.antt =====
-- ToDuration, monthDuration and CalculateCloseTime of internal/model/resolution.go, in nanoseconds.
use ohlcv.Base.{
  ℕ, ◌+◌, ◌-◌, ◌*◌, ◌/◌, ◌%◌, ◌≤◌, ◌<◌, ◌≡◌, ◌≢◌, true, ◌↔◌, ◌⊎◌, String, Option, none, some, arith,
  ◌==◌, if◌then◌else◌, subst, ℕ_discrete, Below, at_below,
}
use ohlcv.Time.{minute, day}
use ohlcv.Time.Calendar.{
  month_length, date_day_lem, date_day-next_year, before_month-suc, before_year-suc, date_day,
  year_of_day, month_of_day,
}
use ohlcv.Resolution.Names.{
  Named, named, is_not_exist, is_not_exist_iff, candle_1m, candle_3m, candle_5m, candle_15m,
  candle_30m, candle_1h, candle_2h, candle_4h, candle_6h, candle_12h, candle_1mh, candle_1d,
  candle_1h2, candle_2h2, candle_4h2, candle_6h2, candle_12h2, candle_1w, candle_1mh2,
}

-- The months count from 1; any other number takes the default branch.
unfoldable pub month_duration : ℕ → ℕ → ℕ
month_duration month year =
    if month == 1
    then 31 * day
    else if month == 2
    then (if year % 4 == 0 then 29 * day else 28 * day)
    else if month == 3
    then 31 * day
    else if month == 4
    then 30 * day
    else if month == 5
    then 31 * day
    else if month == 6
    then 30 * day
    else if month == 7
    then 31 * day
    else if month == 8
    then 31 * day
    else if month == 9
    then 30 * day
    else if month == 10
    then 31 * day
    else if month == 11
    then 30 * day
    else if month == 12
    then 31 * day
    else 30 * day

-- The map literal of ToDuration, by constant.
unfoldable pub duration : Named → ℕ → ℕ → ℕ
unfolding month_duration
duration candle_1m month year = minute
duration candle_3m month year = 3 * minute
duration candle_5m month year = 5 * minute
duration candle_15m month year = 15 * minute
duration candle_30m month year = 30 * minute
duration candle_1h month year = 60 * minute
duration candle_2h month year = 120 * minute
duration candle_4h month year = 240 * minute
duration candle_6h month year = 360 * minute
duration candle_12h month year = 720 * minute
duration candle_1d month year = 1440 * minute
duration candle_1mh month year = month_duration month year
duration candle_1h2 month year = 60 * minute
duration candle_2h2 month year = 120 * minute
duration candle_4h2 month year = 240 * minute
duration candle_6h2 month year = 360 * minute
duration candle_12h2 month year = 720 * minute
duration candle_1w month year = 7 * day
duration candle_1mh2 month year = month_duration month year

duration_or_zero : Option Named → ℕ → ℕ → ℕ
duration_or_zero none month year = 0
duration_or_zero (some n) month year = duration n month year

unfoldable pub to_duration : String → ℕ → ℕ → ℕ
unfolding duration_or_zero
to_duration r month year = duration_or_zero (named r) month year

-- The last nanosecond of the candle that opens at the given time.
unfoldable pub calculate_close_time : ℕ → String → ℕ
calculate_close_time open_time r =
    open_time + to_duration r (month_of_day (open_time / day)) (year_of_day (open_time / day)) - 1

month_duration-pos : (month year : ℕ) → 0 < month_duration month year
unfolding month_duration
month_duration-pos month year = ground arith

pub duration-pos : (n : Named) (month year : ℕ) → 0 < duration n month year
unfolding duration
duration-pos candle_1mh month year = month_duration-pos month year
duration-pos candle_1mh2 month year = month_duration-pos month year
duration-pos candle_1m month year = omega arith
duration-pos _ month year = omega arith

duration_or_zero_iff :
    (o : Option Named) (month year : ℕ) → (duration_or_zero o month year ≡ 0) ↔ (o ≡ none)
unfolding duration_or_zero
duration_or_zero_iff none month year = ground arith
duration_or_zero_iff (some n) month year = ground (arith, duration-pos n month year)

-- ToDuration is 0 exactly for the texts that are no resolution.
pub to_duration-zero_iff :
    (r : String) (month year : ℕ) → (to_duration r month year ≡ 0) ↔ (is_not_exist r ≡ true)
unfolding to_duration
to_duration-zero_iff r month year =
    ground (arith, is_not_exist_iff r, duration_or_zero_iff (named r) month year)

-- The days of the month `i + 1`, as the calendar of package time counts them.
date_day-length :
    (year i : ℕ)
    → i < 12
    → 1 ≤ year
    → date_day year (i + 1 + 1) 1 - date_day year (i + 1) 1 ≡ month_length year i
date_day-length year i h y = elim (ℕ_discrete i 11) [
  | yes e ↦ rw e (
      omega (
        arith,
        date_day-next_year year 1 y,
        date_day_lem year 11 1 (omega arith) y,
        before_year-suc year y,
      ))
  | no d ↦ omega (
    arith,
    date_day_lem year (i + 1) 1 (omega arith) y,
    date_day_lem year i 1 h y,
    before_month-suc year i,
  )
]

-- A month of a length, and what monthDuration makes of it: the length, or a day more in February of a
-- century year that is no multiple of 400.
abbrev pub MonthLasts : ℕ → ℕ → ℕ → Type 0
MonthLasts year month len =
    ((month_duration month year ≡ len * day) × ((month ≢ 2) ⊎ (year % 100 ≢ 0) ⊎ (year % 400 ≡ 0)))
    ⊎ ((month_duration month year ≡ (len + 1) * day)
        × (month ≡ 2)
        × (year % 100 ≡ 0)
        × (year % 400 ≢ 0))

LastsAt : ℕ → ℕ → Type 0
LastsAt year i = MonthLasts year (i + 1) (month_length year i)

LastsAt-february : (year : ℕ) → LastsAt year 1
unfolding LastsAt month_duration
LastsAt-february year = ground arith

LastsAt-months : (year : ℕ) → Below 12 (LastsAt year)
unfolding LastsAt month_duration
LastsAt-months year = ground arith

shifted_month :
    (year i : ℕ)
    → i < 12
    → 1 ≤ year
    → MonthLasts year (i + 1) (date_day year (i + 1 + 1) 1 - date_day year (i + 1) 1)
unfolding LastsAt
shifted_month year i h y =
    rw (date_day-length year i h y) (at_below (LastsAt year) 12 i (LastsAt-months year) h)

-- In a month of 1 … 12, monthDuration is the calendar's month, from its first day to the first day
-- of the next month, but for February of a century year that is no multiple of 400, where it is a
-- day longer.
pub month_duration-date_day :
    (month year : ℕ)
    → 1 ≤ month
    → month ≤ 12
    → 1 ≤ year
    → ((month_duration month year ≡ (date_day year (month + 1) 1 - date_day year month 1) * day)
        × ((month ≢ 2) ⊎ (year % 100 ≢ 0) ⊎ (year % 400 ≡ 0)))
      ⊎ ((month_duration month year
            ≡ (date_day year (month + 1) 1 - date_day year month 1 + 1) * day)
          × (month ≡ 2)
          × (year % 100 ≡ 0)
          × (year % 400 ≢ 0))
month_duration-date_day month year lo hi y =
    let e : month - 1 + 1 ≡ month = omega arith in
    subst (λ m. MonthLasts year m (date_day year (m + 1) 1 - date_day year m 1)) e
      (shifted_month year (month - 1) (omega arith) y)
