-- ===== src/Time/Calendar.antt =====
-- The civil calendar of package time, over the days since 0001-01-01, a Monday: absDate, Date,
-- Weekday and ISOWeek, with the arithmetic of 400, 100, 4 and 1 years that the package uses.
use native.Mathlib.Numerals.{add-one}
use ohlcv.Base.{
  ℕ, zero, suc, ◌+◌, ◌-◌, ◌*◌, ◌/◌, ◌%◌, ◌≡◌, refl, Bool, not, ◌&&◌, ◌||◌, List, [], ◌∷◌, ltb, ◌==◌,
  get_or, arith, ◌≤◌, ◌<◌, if◌then◌else◌,
}

abbrev pub is_leap : ℕ → Bool
is_leap y = (y % 4 == 0) && (not (y % 100 == 0) || (y % 400 == 0))

-- The year of a day, and its number of days before the day.
pub record YearDay : Type 0 where
  pub year : ℕ
  pub yday : ℕ

year_in_cycle : ℕ → ℕ → YearDay
year_in_cycle n400 d =
    let n100 = d / 36524 - d / 36524 / 4 in
    let d4 = d - 36524 * n100 in
    let n4 = d4 / 1461 in
    let d1 = d4 - 1461 * n4 in
    let n1 = d1 / 365 - d1 / 365 / 4 in
    record { year = 400 * n400 + 100 * n100 + 4 * n4 + n1 + 1; yday = d1 - 365 * n1 }

unfoldable pub year_day : ℕ → YearDay
unfolding year_in_cycle
year_day d = year_in_cycle (d / 146097) (d % 146097)

-- The days before 1 January of a year.
unfoldable pub before_year : ℕ → ℕ
before_year y = 365 * (y - 1) + (y - 1) / 4 - (y - 1) / 100 + (y - 1) / 400

abbrev month_lengths : ℕ → List ℕ
month_lengths feb = 31 ∷ feb ∷ 31 ∷ 30 ∷ 31 ∷ 30 ∷ 31 ∷ 31 ∷ 30 ∷ 31 ∷ 30 ∷ 31 ∷ []

abbrev february : ℕ → ℕ
february y = if is_leap y then 29 else 28

-- The length of the month `i`, counted from 0.
abbrev pub month_length : ℕ → ℕ → ℕ
month_length y i = get_or (month_lengths (february y)) i 0

-- The month, from 1, in which the day falls, walking from the given month on.
month_walk : ℕ → ℕ → List ℕ → ℕ
month_walk month yday [] = month
month_walk month yday (n ∷ ns) =
    let rest = month_walk (month + 1) (yday - n) ns in if ltb yday n then month else rest

sum_first : ℕ → List ℕ → ℕ
sum_first zero ns = 0
sum_first (suc m) [] = 0
sum_first (suc m) (n ∷ ns) = n + sum_first m ns

sum_first-suc : (i : ℕ) (ns : List ℕ) → sum_first i ns + get_or ns i 0 ≡ sum_first (suc i) ns
unfolding sum_first
sum_first-suc zero [] = refl
sum_first-suc zero (n ∷ ns) = omega arith
sum_first-suc (suc i) [] = refl
sum_first-suc (suc i) (n ∷ ns) = omega (arith, sum_first-suc i ns)

-- The days of a year before its month `i`, counted from 0.
unfoldable pub before_month : ℕ → ℕ → ℕ
unfolding sum_first
before_month y i = sum_first i (month_lengths (february y))

-- The day number of Date(y, m, d), with a month outside 1 … 12 carried into the year.
unfoldable pub date_day : ℕ → ℕ → ℕ → ℕ
unfolding before_year before_month
date_day y m d =
    let i = y * 12 + m - 1 in before_year (i / 12) + before_month (i / 12) (i % 12) + d - 1

unfoldable pub year_of_day : ℕ → ℕ
unfolding year_day
year_of_day d = (year_day d).year

unfoldable pub month_of_day : ℕ → ℕ
unfolding year_day month_walk
month_of_day d = let yd = year_day d in month_walk 1 yd.yday (month_lengths (february yd.year))

-- The Thursday of the day's week decides its ISO year and week.
abbrev pub thursday : ℕ → ℕ
thursday d = d - d % 7 + 3

unfoldable pub iso_year : ℕ → ℕ
unfolding year_day
iso_year d = (year_day (thursday d)).year

unfoldable pub iso_week : ℕ → ℕ
unfolding year_day
iso_week d = (year_day (thursday d)).yday / 7 + 1

-- Within the year, Date adds the days before the month; month 13 is the next January.
pub date_day_lem :
    (y m d : ℕ) → m < 12 → 1 ≤ y → date_day y (m + 1) d ≡ before_year y + before_month y m + d - 1
unfolding date_day
date_day_lem y m d h hy =
    let q : (y * 12 + (m + 1) - 1) / 12 ≡ y = omega arith in
    let r : (y * 12 + (m + 1) - 1) % 12 ≡ m = omega arith in rw (q, r)

pub date_day-next_year : (y d : ℕ) → 1 ≤ y → date_day y 13 d ≡ before_year (y + 1) + d - 1
unfolding date_day
date_day-next_year y d hy =
    let q : (y * 12 + 13 - 1) / 12 ≡ y + 1 = omega arith in
    let r : (y * 12 + 13 - 1) % 12 ≡ 0 = omega arith in rw (q, r) (ground arith)

-- The lengths of the months, and of December by the next year's start.
pub before_month-suc : (y i : ℕ) → before_month y i + month_length y i ≡ before_month y (i + 1)
unfolding before_month
before_month-suc y i = rw add-one (sum_first-suc i (month_lengths (february y)))

pub before_year-suc : (y : ℕ) → 1 ≤ y → before_year y + before_month y 11 + 31 ≡ before_year (y + 1)
unfolding before_month before_year
before_year-suc y h = ground arith

leap_day : date_day 2020 2 29 ≡ 737483
unfolding date_day
leap_day = refl

leap_day_month : month_of_day 737483 ≡ 2
unfolding month_of_day
leap_day_month = refl

new_year_week : iso_week (date_day 2021 1 1) ≡ 53
unfolding iso_week date_day
new_year_week = refl
