-- ===== src/Candle/Conversion.antt =====
-- What ChartToCurrentCandle makes of a chart.
use mathlib.Core.Option
use ohlcv.Base.{
  Result-cases, ◌≡◌, ◌≢◌, refl, ◌↔◌, ◌⊎◌, inl, inr, true, String, List, [], ◌∷◌, some, ℤ, ◌≤ℤ◌,
  ◌<ℤ◌, last?, ok, err, arith,
}
use ohlcv.Time.{unix_nano, from_unix}
use ohlcv.Resolution.Duration.{calculate_close_time}
use ohlcv.Candle.{Candle, Chart, contains_ts, chart_to_current_candle, last_of}

last_of-cases {ℓ} :
    {A : Type ℓ} (xs : List A)
    → ((xs ≡ []) × (last_of xs ≡ err "unexpected len of chart: 0"))
      ⊎ ((a : A) × (xs ≢ []) × (last? xs ≡ some a) × (last_of xs ≡ ok a))
unfolding last_of
last_of-cases [] = inl (refl, refl)
last_of-cases (x ∷ []) = inr (x, (λ e. cc), refl, refl)
last_of-cases (x ∷ y ∷ xs) = elim (last_of-cases (y ∷ xs)) [
  | inl e ↦ cc
  | inr (a, _, l, h) ↦ inr (a, (λ e. cc), l, h)
]

module _ {D : Type 0} where
  -- A candle contains an instant exactly when the instant is not before its opening and is strictly
  -- before its close.
  pub contains_ts_iff :
      (c : Candle D) (n : ℤ)
      → (contains_ts c n ≡ true) ↔ ((unix_nano c.open_time ≤ℤ n) × (n <ℤ unix_nano c.close_time))
  unfolding contains_ts
  contains_ts_iff c n = ground arith

  -- Some column of the chart is empty.
  abbrev pub HasEmptyColumn : Chart D → Type 0
  HasEmptyColumn k = (k.o ≡ []) ⊎ (k.h ≡ []) ⊎ (k.l ≡ []) ⊎ (k.c ≡ []) ⊎ (k.v ≡ []) ⊎ (k.t ≡ [])

  -- The conversion of a chart fails exactly when one of its columns is empty.
  pub chart_to_current_candle-err_iff :
      (d : D) (k : Chart D) (r : String)
      → (chart_to_current_candle d (some k) r ≡ err "unexpected len of chart: 0") ↔ HasEmptyColumn k
  unfolding chart_to_current_candle
  chart_to_current_candle-err_iff d k r = ground (
    arith,
    last_of-cases k.o,
    last_of-cases k.h,
    last_of-cases k.l,
    last_of-cases k.c,
    last_of-cases k.v,
    last_of-cases k.t,
  )

  err-HasEmptyColumn :
      (d : D) (k : Chart D) (r e : String)
      → chart_to_current_candle d (some k) r ≡ err e
      → HasEmptyColumn k
  unfolding chart_to_current_candle
  err-HasEmptyColumn d k r e h = ground (
    arith,
    last_of-cases k.o,
    last_of-cases k.h,
    last_of-cases k.l,
    last_of-cases k.c,
    last_of-cases k.v,
    last_of-cases k.t,
  )

  -- A chart with no empty column gives a candle.
  pub chart_to_current_candle-ok :
      (d : D) (k : Chart D) (r : String)
      → ¬ HasEmptyColumn k
      → (c : Candle D) × (chart_to_current_candle d (some k) r ≡ ok c)
  chart_to_current_candle-ok d k r full =
      elim (Result-cases (chart_to_current_candle d (some k) r)) [
        | inl (e, h) ↦ absurd (full (err-HasEmptyColumn d k r e h))
        | inr c ↦ c
      ]

  -- A candle that comes out of the conversion of a chart has the symbol and the resolution of the
  -- chart and the last element of each column; it closes by the resolution that the call was given.
  pub chart_to_current_candle-last :
      (d : D) (k : Chart D) (r : String) (c : Candle D)
      → chart_to_current_candle d (some k) r ≡ ok c
      → (c.symbol ≡ k.symbol)
        × (c.resolution ≡ k.resolution)
        × (last? k.o ≡ some c.opening)
        × (last? k.h ≡ some c.high)
        × (last? k.l ≡ some c.low)
        × (last? k.c ≡ some c.closing)
        × (last? k.v ≡ some c.volume)
        × (Option.map from_unix (last? k.t) ≡ some c.open_time)
        × (c.close_time ≡ calculate_close_time c.open_time r)
  unfolding chart_to_current_candle
  chart_to_current_candle-last d k r c e = ground (
    arith,
    last_of-cases k.o,
    last_of-cases k.h,
    last_of-cases k.l,
    last_of-cases k.c,
    last_of-cases k.v,
    last_of-cases k.t,
  )
