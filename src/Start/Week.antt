-- ===== src/Start/Week.antt =====
-- firstDayOfISOWeek of candle/aggregator.go, over day numbers. Each of its three loops takes fuel.
use ohlcv.Base.{ℕ, zero, suc, ◌+◌, ◌-◌, ◌%◌, ◌≡◌, refl, ltb, ◌==◌, if◌then◌else◌}
use ohlcv.Time.Calendar.{date_day, iso_year, iso_week}

-- iterate back to Monday
back_to_monday : ℕ → ℕ → ℕ
back_to_monday zero d = d
back_to_monday (suc fuel) d =
    let rest = back_to_monday fuel (d - 1) in if d % 7 == 0 then d else rest

-- iterate forward to the first day of the first week
forward_to_year : ℕ → ℕ → ℕ → ℕ
forward_to_year zero year d = d
forward_to_year (suc fuel) year d =
    let rest = forward_to_year fuel year (d + 1) in if ltb (iso_year d) year then rest else d

-- iterate forward to the first day of the given week
forward_to_week : ℕ → ℕ → ℕ → ℕ
forward_to_week zero week d = d
forward_to_week (suc fuel) week d =
    let rest = forward_to_week fuel week (d + 1) in if ltb (iso_week d) week then rest else d

-- time.Date(year, 0, 0, …) is 30 November of the year before.
unfoldable pub first_day_of_iso_week : ℕ → ℕ → ℕ
unfolding back_to_monday forward_to_year forward_to_week
first_day_of_iso_week year week =
    forward_to_week 371 week (forward_to_year 42 year (back_to_monday 6 (date_day year 0 0)))

week_of_leap_day :
    first_day_of_iso_week (iso_year (date_day 2020 2 29)) (iso_week (date_day 2020 2 29))
    ≡ date_day 2020 2 24
unfolding first_day_of_iso_week iso_year iso_week date_day
week_of_leap_day = refl
