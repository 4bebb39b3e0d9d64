-- ===== src/Requests/Interval.antt =====
-- The interval that is asked of Mongo for the two numbers of a request, in Unix seconds.
use mathlib.Core.Bool.{false≢true}
use ohlcv.Base.{
  ℕ, ◌+◌, ◌-◌, ◌*◌, ◌/◌, ◌≤◌, ◌≡◌, refl, ◌⊎◌, inl, inr, String, some, false, ℤ, pos, negsuc, ◌≤ℤ◌,
  ◌+ℤ◌, arith, sym, ◌∙◌, Option-cases, ap,
}
use ohlcv.Time.{day, from_unix}
use ohlcv.Time.Calendar.{date_day, year_of_day, month_of_day}
use ohlcv.Resolution.Names.{
  Named, named, named_iff, text, is_not_exist, is_not_exist_iff, candle_1mh, candle_1mh2,
}
use ohlcv.Resolution.Units.{IsMonthly}
use ohlcv.Resolution.Duration.{to_duration, duration}
use ohlcv.Requests.{truncate_interval}
use ohlcv.Requests.Widening.{Widens, truncate_interval-Widens, to_duration-named}

-- The start is at least 7 days after the zero time and the end not before it, and both are within the
-- milliseconds of a primitive.DateTime: Go's times do not wrap here, nor go below the year 1.
abbrev pub IsInTime : ℤ → ℤ → Type 0
IsInTime from to =
    (negsuc 62_134_991_999 ≤ℤ from)
    × (from ≤ℤ pos 9_000_000_000_000_000)
    × (negsuc 62_135_596_799 ≤ℤ to)
    × (to ≤ℤ pos 9_000_000_000_000_000)

-- From the first day of the month of the start to the last nanosecond of the month of the end.
abbrev pub whole_months : ℕ → ℕ → ℕ × ℕ
whole_months from to = (
  date_day (year_of_day (from / day)) (month_of_day (from / day)) 1 * day,
  date_day (year_of_day (to / day)) (month_of_day (to / day) + 1) 1 * day - 1,
)

-- The interval is the whole months for a monthly resolution, and widened to whole candles for another.
abbrev pub Covers : String → ℕ → ℕ → ℕ × ℕ → Type 0
Covers r from to interval =
    (n : Named) × (named r ≡ some n)
    × ((IsMonthly n × (interval ≡ whole_months from to))
        ⊎ ((¬ IsMonthly n) × Widens (to_duration r 1 1) from to interval))

IsMonthly-cases : (n : Named) → IsMonthly n ⊎ (¬ IsMonthly n)
IsMonthly-cases candle_1mh = inl (inl refl)
IsMonthly-cases candle_1mh2 = inl (inr refl)
IsMonthly-cases _ = inr (λ m. elim m [ inl e ↦ cc | inr e ↦ cc ])

duration_at_most : (n : Named) (month year : ℕ) → ¬ IsMonthly n → duration n month year ≤ 7 * day
unfolding duration
duration_at_most candle_1mh month year h = absurd (h (inl refl))
duration_at_most candle_1mh2 month year h = absurd (h (inr refl))
duration_at_most _ month year h = omega arith

late : (from : ℤ) → negsuc 62_134_991_999 ≤ℤ from → 7 * day ≤ from_unix from
unfolding from_unix ◌+ℤ◌
late (pos s) h = ground (arith, h)
late (negsuc s) h = ground (arith, h)

monthly :
    (r : String) (n : Named) (from to : ℕ)
    → named r ≡ some n
    → IsMonthly n
    → truncate_interval from to r ≡ whole_months from to
unfolding truncate_interval text
monthly r n from to e (inl m) = rw ((named_iff r candle_1mh).0 (e ∙ ap some m)) refl
monthly r n from to e (inr m) = rw ((named_iff r candle_1mh2).0 (e ∙ ap some m)) refl

pub truncate_interval-Covers :
    (r : String) (from to : ℤ)
    → is_not_exist r ≡ false
    → IsInTime from to
    → Covers r (from_unix from) (from_unix to) (truncate_interval (from_unix from) (from_unix to) r)
truncate_interval-Covers r from to declared h = elim (Option-cases (named r)) [
  | inl unknown ↦ absurd (false≢true (sym declared ∙ (is_not_exist_iff r).1 unknown))
  | inr (n, e) ↦ (
    n,
    e,
    elim (IsMonthly-cases n) [
      | inl m ↦ inl (m, monthly r n (from_unix from) (from_unix to) e m)
      | inr other ↦ inr (
        other,
        truncate_interval-Widens (from_unix from) (from_unix to) r n 1 1 e other (
            omega
              (arith, to_duration-named r n 1 1 e, duration_at_most n 1 1 other, late from (h.0))),
      )
    ],
  )
]
