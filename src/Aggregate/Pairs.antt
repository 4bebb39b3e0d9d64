-- ===== src/Aggregate/Pairs.antt =====
-- What compare makes of two candles.
use ohlcv.Base.{
  ℕ, ◌≡◌, ◌∙◌, ap, ◌⊎◌, inr, ℤ, pos, negsuc, ◌<ℤ◌, ◌≤ℤ◌, ltb_ℤ, eqb_ℤ, ok, if◌then◌else◌, arith,
}
use ohlcv.Time.{unix}
use ohlcv.Decimal.{Decimals}
use ohlcv.Decimal.Compare.{cmp, compare_decimal128, compare_decimal128-ok, compare_parts-eq_exp}
use ohlcv.Candle.{Candle}
use ohlcv.Aggregate.{compare, value_or}

cmp_below : (a b : ℕ) → eqb_ℤ (cmp (pos a) (pos b)) (negsuc 0) ≡ ltb_ℤ (pos a) (pos b)
cmp_below a b = ground arith

cmp_above : (a b : ℕ) → eqb_ℤ (cmp (pos a) (pos b)) (pos 1) ≡ ltb_ℤ (pos b) (pos a)
cmp_above a b = ground arith

module _ {D S : Type 0} (dec : Decimals D S) where
  -- compareDecimal128 on coefficients of one exponent.
  compared_as :
      (d d' : D) (n n' : ℕ) (e : ℤ)
      → dec.big_int d ≡ ok (pos n, e)
      → dec.big_int d' ≡ ok (pos n', e)
      → value_or (pos 0) (compare_decimal128 dec d d') ≡ cmp (pos n) (pos n')
  compared_as d d' n n' e h h' =
      ap (value_or (pos 0)) (compare_decimal128-ok dec d d' (pos n, e) (pos n', e) h h')
      ∙ compare_parts-eq_exp (pos n) (pos n') e (inr (omega arith))

  -- Of two candles, the result opens as the earlier and closes as the later, by the seconds of their
  -- open times; of two that open in one second, it opens as the second and closes as the first. It
  -- has the open time of the second.
  pub compare-open_close :
      (a b : Candle D)
      → ((unix a.open_time <ℤ unix b.open_time)
          × ((compare dec a b).opening ≡ a.opening)
          × ((compare dec a b).closing ≡ b.closing)
          × ((compare dec a b).open_time ≡ b.open_time))
        ⊎ ((unix b.open_time ≤ℤ unix a.open_time)
            × ((compare dec a b).opening ≡ b.opening)
            × ((compare dec a b).closing ≡ a.closing)
            × ((compare dec a b).open_time ≡ b.open_time))
  unfolding compare
  compare-open_close a b = ground arith

  -- Of two candles whose highs are not negative and have one exponent, and whose lows too, the result
  -- has the second's high if that is the higher, and otherwise the zero of an empty candle; likewise
  -- the second's low if that is the lower.
  pub compare-high_low :
      (a b : Candle D) (ha hb la lb : ℕ) (e e' : ℤ)
      → dec.big_int a.high ≡ ok (pos ha, e)
      → dec.big_int b.high ≡ ok (pos hb, e)
      → dec.big_int a.low ≡ ok (pos la, e')
      → dec.big_int b.low ≡ ok (pos lb, e')
      → ((compare dec a b).high ≡ (if ltb_ℤ (pos ha) (pos hb) then b.high else dec.empty))
        × ((compare dec a b).low ≡ (if ltb_ℤ (pos lb) (pos la) then b.low else dec.empty))
  unfolding compare
  compare-high_low a b ha hb la lb e e' ah bh al bl = (
    ap (λ z. if eqb_ℤ z (negsuc 0) then b.high else dec.empty)
          (compared_as a.high b.high ha hb e ah bh)
        ∙ ap (λ t. if t then b.high else dec.empty) (cmp_below ha hb),
    ap (λ z. if eqb_ℤ z (pos 1) then b.low else dec.empty) (compared_as a.low b.low la lb e' al bl)
        ∙ ap (λ t. if t then b.low else dec.empty) (cmp_above la lb),
  )
