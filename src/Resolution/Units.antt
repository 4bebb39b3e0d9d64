-- ===== src/Resolution/Units.antt =====
-- GetResolution of internal/model/resolution.go: the unit and the bin size that Mongo is asked for.
use ohlcv.Base.{
  ℕ, ◌*◌, ◌≡◌, ◌≢◌, refl, ◌⊎◌, inl, inr, String, Option, none, some, arith, str_eq, if◌then◌else◌,
}
use ohlcv.Time.{minute, hour, day}
use ohlcv.Resolution.Names.{
  Named, named, text, named-text, candle_1m, candle_3m, candle_5m, candle_15m, candle_30m,
  candle_1h, candle_2h, candle_4h, candle_6h, candle_12h, candle_1mh, candle_1d, candle_1h2,
  candle_2h2, candle_4h2, candle_6h2, candle_12h2, candle_1w, candle_1mh2,
}
use ohlcv.Resolution.Duration.{duration, to_duration}

-- The cases of the switch, by constant; Candle1H2Resolution has none.
unit_of : Option Named → String × ℕ
unit_of (some candle_1m) = ("minute", 1)
unit_of (some candle_3m) = ("minute", 3)
unit_of (some candle_5m) = ("minute", 5)
unit_of (some candle_15m) = ("minute", 15)
unit_of (some candle_30m) = ("minute", 3)
unit_of (some candle_1h) = ("hour", 1)
unit_of (some candle_2h) = ("hour", 2)
unit_of (some candle_2h2) = ("hour", 2)
unit_of (some candle_4h) = ("hour", 4)
unit_of (some candle_4h2) = ("hour", 4)
unit_of (some candle_6h) = ("hour", 6)
unit_of (some candle_6h2) = ("hour", 6)
unit_of (some candle_12h) = ("hour", 12)
unit_of (some candle_12h2) = ("hour", 12)
unit_of (some candle_1d) = ("day", 1)
unit_of (some candle_1mh) = ("month", 1)
unit_of (some candle_1mh2) = ("month", 1)
unit_of (some candle_1w) = ("week", 1)
unit_of (some candle_1h2) = ("", 0)
unit_of none = ("", 0)

unfoldable pub get_resolution : String → String × ℕ
unfolding unit_of
get_resolution interval = unit_of (named interval)

-- The length of Mongo's units of fixed length.
abbrev pub unit_length : String → ℕ
unit_length u =
    if str_eq u "minute"
    then minute
    else if str_eq u "hour"
    then hour
    else if str_eq u "day"
    then day
    else if str_eq u "week"
    then 7 * day
    else 0

abbrev pub IsMonthly : Named → Type 0
IsMonthly n = (n ≡ candle_1mh) ⊎ (n ≡ candle_1mh2)

-- What a resolution gets: bins as long as it is, or the bins of the two exceptions.
abbrev pub Gets : Named → String × ℕ → ℕ → Type 0
Gets n got length =
    ((unit_length got.0 * got.1 ≡ length) × (n ≢ candle_30m) × (n ≢ candle_1h2))
    ⊎ ((n ≡ candle_30m) × (got ≡ ("minute", 3)))
    ⊎ ((n ≡ candle_1h2) × (got ≡ ("", 0)))

bins :
    (n : Named) (month year : ℕ) → ¬ IsMonthly n → Gets n (unit_of (some n)) (duration n month year)
unfolding unit_of duration
bins candle_1m month year h = inl (omega arith, (λ e. cc), (λ e. cc))
bins candle_3m month year h = inl (omega arith, (λ e. cc), (λ e. cc))
bins candle_5m month year h = inl (omega arith, (λ e. cc), (λ e. cc))
bins candle_15m month year h = inl (omega arith, (λ e. cc), (λ e. cc))
bins candle_1h month year h = inl (omega arith, (λ e. cc), (λ e. cc))
bins candle_2h month year h = inl (omega arith, (λ e. cc), (λ e. cc))
bins candle_4h month year h = inl (omega arith, (λ e. cc), (λ e. cc))
bins candle_6h month year h = inl (omega arith, (λ e. cc), (λ e. cc))
bins candle_12h month year h = inl (omega arith, (λ e. cc), (λ e. cc))
bins candle_1d month year h = inl (omega arith, (λ e. cc), (λ e. cc))
bins candle_2h2 month year h = inl (omega arith, (λ e. cc), (λ e. cc))
bins candle_4h2 month year h = inl (omega arith, (λ e. cc), (λ e. cc))
bins candle_6h2 month year h = inl (omega arith, (λ e. cc), (λ e. cc))
bins candle_12h2 month year h = inl (omega arith, (λ e. cc), (λ e. cc))
bins candle_1w month year h = inl (omega arith, (λ e. cc), (λ e. cc))
bins candle_30m month year h = inr (inl (refl, refl))
bins candle_1h2 month year h = inr (inr (refl, refl))
bins candle_1mh month year h = absurd (h (inl refl))
bins candle_1mh2 month year h = absurd (h (inr refl))

-- Outside the monthly resolutions, the bins that GetResolution asks for are as long as the
-- resolution, but for the resolutions "30", which gets bins of 3 minutes, and "1H", which gets the
-- unit "" and the size 0.
pub get_resolution-to_duration :
    (n : Named) (month year : ℕ)
    → ¬ IsMonthly n
    → Gets n (get_resolution (text n)) (to_duration (text n) month year)
unfolding get_resolution to_duration
get_resolution-to_duration n month year h = rw (named-text n) (bins n month year h)

-- Outside the monthly resolutions, the duration does not depend on the month.
pub duration_of_any_month :
    (n : Named) (month year month' year' : ℕ)
    → ¬ IsMonthly n
    → duration n month year ≡ duration n month' year'
unfolding duration
duration_of_any_month candle_1m month year month' year' h = refl
duration_of_any_month candle_3m month year month' year' h = refl
duration_of_any_month candle_5m month year month' year' h = refl
duration_of_any_month candle_15m month year month' year' h = refl
duration_of_any_month candle_30m month year month' year' h = refl
duration_of_any_month candle_1h month year month' year' h = refl
duration_of_any_month candle_2h month year month' year' h = refl
duration_of_any_month candle_4h month year month' year' h = refl
duration_of_any_month candle_6h month year month' year' h = refl
duration_of_any_month candle_12h month year month' year' h = refl
duration_of_any_month candle_1d month year month' year' h = refl
duration_of_any_month candle_1h2 month year month' year' h = refl
duration_of_any_month candle_2h2 month year month' year' h = refl
duration_of_any_month candle_4h2 month year month' year' h = refl
duration_of_any_month candle_6h2 month year month' year' h = refl
duration_of_any_month candle_12h2 month year month' year' h = refl
duration_of_any_month candle_1w month year month' year' h = refl
duration_of_any_month candle_1mh month year month' year' h = absurd (h (inl refl))
duration_of_any_month candle_1mh2 month year month' year' h = absurd (h (inr refl))
