-- ===== src/Requests/Widening.antt =====
-- The interval of a request lies within the interval that is asked of Mongo.
use native.Mathlib.Nat.{div-add-mod, mul-mod_right, mod-lt, mod-le}
use ohlcv.Base.{
  some-injective, ℕ, ◌+◌, ◌-◌, ◌*◌, ◌/◌, ◌%◌, ◌≤◌, ◌<◌, ◌≡◌, ◌≢◌, refl, sym, ◌∙◌, ap, inl, inr,
  false, String, some, arith, str_eq, subst, eq_iff, Bool-cases, ◌==◌,
}
use ohlcv.Time.{day, truncate}
use ohlcv.Time.Calendar.{year_of_day}
use ohlcv.Resolution.Names.{Named, named, named_iff, text, candle_1mh, candle_1mh2}
use ohlcv.Resolution.Units.{IsMonthly, duration_of_any_month}
use ohlcv.Resolution.Duration.{to_duration, duration, duration-pos}
use ohlcv.Requests.{truncate_interval}

-- What is left over in the two divisions is less than the duration.
lower : (t d r x : ℕ) → d ≤ t → r < d → r ≤ t - d → x ≡ t - d - r → (x + d ≤ t) × (t < x + 2 * d)
lower t d r x h hr hr' e = omega (arith, e)

upper : (t d s x : ℕ) → s < d → x ≡ t + d - s → (t < x) × (x ≤ t + d)
upper t d s x hs e = omega (arith, e)

truncate-mod : (t d : ℕ) → 0 < d → truncate t d ≡ t - t % d
unfolding truncate
truncate-mod t d h = let positive : (d == 0) ≡ false = ground arith in rw (positive, truncate) refl

rest-sub : (t q r : ℕ) → q + r ≡ t → t - r ≡ q
rest-sub t q r h = omega (arith, h)

truncate-multiple : (t d : ℕ) → 0 < d → truncate t d % d ≡ 0
truncate-multiple t d h =
    ap (λ x. x % d) (truncate-mod t d h ∙ rest-sub t (d * (t / d)) (t % d) (div-add-mod t d))
    ∙ mul-mod_right d (t / d)

-- The candle before the start, and the end of the candle of the end.
abbrev pub Widens : ℕ → ℕ → ℕ → ℕ × ℕ → Type 0
Widens d from to (from', to') =
    (from' + d ≤ from)
    × (from < from' + 2 * d)
    × (from' % d ≡ 0)
    × (to < to')
    × (to' ≤ to + d)
    × (to' % d ≡ 0)

widens :
    (from to d : ℕ)
    → 0 < d
    → d ≤ from
    → Widens d from to (truncate (from - d) d, truncate (to + d) d)
widens from to d p h =
    let start =
      lower from d ((from - d) % d) (truncate (from - d) d) h (mod-lt (from - d) p)
        (mod-le (from - d) d) (truncate-mod (from - d) d p) in
    let end =
      upper to d ((to + d) % d) (truncate (to + d) d) (mod-lt (to + d) p)
        (truncate-mod (to + d) d p) in
    (
      start.0,
      start.1,
      truncate-multiple (from - d) d p,
      end.0,
      end.1,
      truncate-multiple (to + d) d p,
    )

not_text : (r : String) (n m : Named) → named r ≡ some n → n ≢ m → str_eq r (text m) ≡ false
not_text r n m e ne = elim (Bool-cases (str_eq r (text m))) [
  | inl same ↦ absurd (ne (some-injective (sym e ∙ (named_iff r m).1 ((eq_iff r (text m)).0 same))))
  | inr other ↦ other
]

pub to_duration-named :
    (r : String) (n : Named) (month year : ℕ)
    → named r ≡ some n
    → to_duration r month year ≡ duration n month year
unfolding to_duration
to_duration-named r n month year e = rw e

by_duration :
    (from to : ℕ) (r : String) (n : Named) (month year : ℕ)
    → named r ≡ some n
    → ¬ IsMonthly n
    → truncate_interval from to r ≡ (
      truncate (from - to_duration r month year) (to_duration r month year),
      truncate (to + to_duration r month year) (to_duration r month year),
    )
unfolding truncate_interval
by_duration from to r n month year e h =
    let y = year_of_day (from / day) in
    let same =
      to_duration-named r n 0 y e
      ∙ duration_of_any_month n 0 y month year h
      ∙ sym (to_duration-named r n month year e) in
    rw
      (
        not_text r n candle_1mh e (λ q. h (inl q)),
        not_text r n candle_1mh2 e (λ q. h (inr q)),
        truncate_interval,
      )
      (ap (λ d. (truncate (from - d) d, truncate (to + d) d)) same)

-- For a declared resolution that is not monthly, and a start at least a duration after the zero
-- time, the interval of a request is widened to multiples of the duration: it starts at least one and
-- less than two durations before the request, and ends after it, by at most a duration.
pub truncate_interval-Widens :
    (from to : ℕ) (r : String) (n : Named) (month year : ℕ)
    → named r ≡ some n
    → ¬ IsMonthly n
    → to_duration r month year ≤ from
    → Widens (to_duration r month year) from to (truncate_interval from to r)
truncate_interval-Widens from to r n month year e h late =
    let d = to_duration r month year in
    let positive =
      subst (λ x. 0 < x) (sym (to_duration-named r n month year e)) (duration-pos n month year) in
    subst (Widens d from to) (sym (by_duration from to r n month year e h))
      (widens from to d positive late)
