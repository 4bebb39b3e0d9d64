-- ===== src/Service/Answers.antt =====
-- What MakeChartResponse makes of a chart.
use ohlcv.Base.{
  ◌≤◌, ◌<◌, ◌≡◌, refl, ◌↔◌, ◌⊎◌, inl, inr, String, List, [], ◌∷◌, map, some, arith, length, done,
  panic,
}
use ohlcv.Candle.{Chart}
use ohlcv.Batch.Merge.{IsRectangular}
use ohlcv.Service.{fill, make_chart_response}

module _ {D F : Type 0} (to_float : D → F) (zero_float : F) where
  fill-cases :
      (column vs : List D)
      → ((length column < length vs) × (fill to_float zero_float column vs ≡ panic))
        ⊎ ((fs : List F) × (length vs ≤ length column)
            × (fill to_float zero_float column vs ≡ done fs))
  unfolding fill
  fill-cases column [] = inr (map (λ d. zero_float) column, omega arith, refl)
  fill-cases [] (v ∷ vs) = inl (omega arith, refl)
  fill-cases (d ∷ column) (v ∷ vs) = elim (fill-cases column vs) [
    | inl (short, e) ↦ inl (omega (arith, short), rw (e, fill))
    | inr (fs, long, e) ↦ inr (to_float d ∷ fs, omega (arith, long), rw (e, fill))
  ]

  -- A column of the chart is shorter than the column of the volumes.
  abbrev pub HasShortColumn : Chart D → Type 0
  HasShortColumn k =
      (length k.o < length k.v)
      ⊎ (length k.h < length k.v)
      ⊎ (length k.l < length k.v)
      ⊎ (length k.c < length k.v)

  -- MakeChartResponse reads past the end of a slice exactly when the opens, highs, lows or closes
  -- are fewer than the volumes.
  pub make_chart_response-panic_iff :
      (market : String) (k : Chart D)
      → (make_chart_response to_float zero_float market (some k) ≡ panic) ↔ HasShortColumn k
  unfolding make_chart_response
  make_chart_response-panic_iff market k = ground (
    arith,
    fill-cases k.o k.v,
    fill-cases k.h k.v,
    fill-cases k.l k.v,
    fill-cases k.c k.v,
    fill-cases k.v k.v,
  )

  fill-even :
      (column vs : List D)
      → length column ≡ length vs
      → fill to_float zero_float column vs ≡ done (map to_float column)
  unfolding fill
  fill-even [] [] e = refl
  fill-even [] (v ∷ vs) e = absurd (omega (arith, e))
  fill-even (d ∷ column) [] e = absurd (omega (arith, e))
  fill-even (d ∷ column) (v ∷ vs) e = rw (fill-even column vs (omega (arith, e)))

  -- From a chart whose columns are as long as each other, MakeChartResponse makes a response with
  -- the chart's symbol and times and the floats of its decimals, in their order.
  pub make_chart_response-IsRectangular :
      (market : String) (k : Chart D)
      → IsRectangular k
      → make_chart_response to_float zero_float market (some k)
        ≡ done (record {
          symbol = k.symbol;
          o = map to_float k.o;
          h = map to_float k.h;
          l = map to_float k.l;
          c = map to_float k.c;
          v = map to_float k.v;
          t = k.t;
        })
  unfolding make_chart_response
  make_chart_response-IsRectangular market k r = rw (
    fill-even k.o k.v (omega (arith, r)),
    fill-even k.h k.v (omega (arith, r)),
    fill-even k.l k.v (omega (arith, r)),
    fill-even k.c k.v (omega (arith, r)),
    fill-even k.v k.v refl,
  )
