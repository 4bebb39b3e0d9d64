-- ===== src/Decimal/Compare.antt =====
-- compareDecimal128 of candle/aggregator.go, against the order of the values coefficient * 10 ^ exp.
use mathlib.Core.Path.{ap₂, sym, ◌∙◌}
use native.Mathlib.Nat.{pow-suc}
use ohlcv.Decimal.{Decimals}
use ohlcv.Base.{
  ℕ, zero, suc, ◌+◌, ◌-◌, ◌*◌, ◌^◌, ◌<◌, ◌≡◌, ◌≢◌, not, arith, if◌then◌else◌, ℤ, pos, negsuc,
  pos_part, neg_part, scale, ◌≤ℤ◌, ◌<ℤ◌, ltb_ℤ, eqb_ℤ, Result, ok, ◌>>=◌, ◌⊎◌, inl, inr, ◌↔◌,
}

-- big.Int's Sign and Cmp.
abbrev pub sign : ℤ → ℤ
sign (pos zero) = pos 0
sign (pos (suc n)) = pos 1
sign (negsuc n) = negsuc 0

abbrev pub cmp : ℤ → ℤ → ℤ
cmp a b = if ltb_ℤ a b then negsuc 0 else if eqb_ℤ a b then pos 0 else pos 1

-- The comparison once both decimals have been taken apart.
unfoldable pub compare_parts : ℤ × ℤ → ℤ × ℤ → ℤ
compare_parts (b1, exp1) (b2, exp2) =
    if not (eqb_ℤ (sign b1) (sign b2))
    then (if ltb_ℤ (pos 0) (sign b1) then pos 1 else negsuc 0)
    else if eqb_ℤ exp1 exp2
    then cmp b1 b2
    else if ltb_ℤ (sign b1) (pos 0)
    then (if ltb_ℤ exp1 exp2 then pos 1 else negsuc 0)
    else if ltb_ℤ exp1 exp2
    then negsuc 0
    else pos 1

-- The order of the values: both coefficients are taken to the smaller of the two exponents.
abbrev pub gap : ℤ → ℤ → ℕ
gap a b = (pos_part a + neg_part b) - (pos_part b + neg_part a)

abbrev pub value_cmp : ℤ × ℤ → ℤ × ℤ → ℤ
value_cmp (b1, exp1) (b2, exp2) =
    cmp (scale b1 (10 ^ gap exp1 exp2)) (scale b2 (10 ^ gap exp2 exp1))

pow-pos : (n : ℕ) → 0 < 10 ^ n
pow-pos zero = omega arith
pow-pos (suc n) = rw pow-suc (omega (arith, pow-pos n))

scale-one : (b : ℤ) → scale b 1 ≡ b
scale-one (pos n) = ground arith
scale-one (negsuc n) = ground arith

scale-pos : (a k : ℕ) → scale (pos a) k ≡ pos (a * k)
scale-pos a k = ground arith

scale-gap_self : (b e : ℤ) → scale b (10 ^ gap e e) ≡ b
scale-gap_self b e = let g : gap e e ≡ 0 = omega arith in rw g (scale-one b)

-- Positive factors do not change which of two integers of different signs is the greater.
cmp-scale-sign :
    (b1 b2 : ℤ) (k l : ℕ)
    → 0 < k
    → 0 < l
    → sign b1 ≢ sign b2
    → (b1 ≢ pos 0) ⊎ (pos 0 ≤ℤ b2)
    → cmp (scale b1 k) (scale b2 l) ≡ (if ltb_ℤ (pos 0) (sign b1) then pos 1 else negsuc 0)
cmp-scale-sign (pos zero) (pos zero) (suc k) (suc l) hk hl d g = ground arith
cmp-scale-sign (pos _) (pos _) (suc k) (suc l) hk hl d g = ground arith
cmp-scale-sign _ _ (suc k) (suc l) hk hl d g = ground arith
cmp-scale-sign b1 b2 zero l hk hl d g = elim hk [ ]
cmp-scale-sign b1 b2 (suc k) zero hk hl d g = elim hl [ ]

compare_parts-sign :
    (b1 e1 b2 e2 : ℤ)
    → sign b1 ≢ sign b2
    → compare_parts (b1, e1) (b2, e2) ≡ (if ltb_ℤ (pos 0) (sign b1) then pos 1 else negsuc 0)
unfolding compare_parts
compare_parts-sign (pos zero) e1 (pos zero) e2 d = ground arith
compare_parts-sign (pos _) e1 (pos _) e2 d = ground arith
compare_parts-sign _ e1 _ e2 d = ground arith

pub compare_parts-eq_exp :
    (b1 b2 e : ℤ) → (b1 ≢ pos 0) ⊎ (pos 0 ≤ℤ b2) → compare_parts (b1, e) (b2, e) ≡ cmp b1 b2
unfolding compare_parts
compare_parts-eq_exp (pos zero) (pos zero) e g = ground arith
compare_parts-eq_exp (pos _) (pos _) e g = ground arith
compare_parts-eq_exp _ _ e g = ground arith

-- Across signs, and at equal exponents, the comparison is the order of the values, unless the
-- first decimal is 0 and the second is negative.
pub compare_parts-value_cmp :
    (b1 e1 b2 e2 : ℤ)
    → (sign b1 ≢ sign b2) ⊎ (e1 ≡ e2)
    → (b1 ≢ pos 0) ⊎ (pos 0 ≤ℤ b2)
    → compare_parts (b1, e1) (b2, e2) ≡ value_cmp (b1, e1) (b2, e2)
compare_parts-value_cmp b1 e1 b2 e2 (inl d) g =
    compare_parts-sign b1 e1 b2 e2 d
    ∙ sym (cmp-scale-sign b1 b2 (10 ^ gap e1 e2) (10 ^ gap e2 e1) (pow-pos _) (pow-pos _) d g)
compare_parts-value_cmp b1 e1 b2 e2 (inr e) g =
    rw (← e) (
      compare_parts-eq_exp b1 b2 e1 g ∙ sym (ap₂ cmp (scale-gap_self b1 e1) (scale-gap_self b2 e1)))

compare_parts-lt_exp :
    (a b : ℕ) (e1 e2 : ℤ)
    → sign (pos a) ≡ sign (pos b)
    → e1 <ℤ e2
    → compare_parts (pos a, e1) (pos b, e2) ≡ negsuc 0
unfolding compare_parts
compare_parts-lt_exp zero zero e1 e2 s h = ground arith
compare_parts-lt_exp _ _ e1 e2 s h = ground arith

cmp-pos_iff : (a b : ℕ) → (negsuc 0 ≡ cmp (pos a) (pos b)) ↔ (a < b)
cmp-pos_iff a b = ground arith

-- A positive decimal is above a zero of any exponent.
pub compare_parts-pos_zero : (n : ℕ) (e z : ℤ) → 0 < n → compare_parts (pos n, e) (pos 0, z) ≡ pos 1
compare_parts-pos_zero zero e z h = elim h [ ]
compare_parts-pos_zero (suc n) e z h = compare_parts-sign (pos (suc n)) e (pos 0) z (λ q. cc)

-- For two coefficients that are both 0 or both positive, the first with the smaller exponent, the
-- comparison is the order of the values exactly when the first value is below the second.
pub compare_parts-value_iff :
    (a b : ℕ) (e1 e2 : ℤ)
    → sign (pos a) ≡ sign (pos b)
    → e1 <ℤ e2
    → (compare_parts (pos a, e1) (pos b, e2) ≡ value_cmp (pos a, e1) (pos b, e2))
      ↔ (a < b * 10 ^ gap e2 e1)
compare_parts-value_iff a b e1 e2 s h =
    let g : gap e1 e2 ≡ 0 = omega arith in
    rw (compare_parts-lt_exp a b e1 e2 s h, g, scale-one (pos a), scale-pos b (10 ^ gap e2 e1))
      (cmp-pos_iff a (b * 10 ^ gap e2 e1))

module _ {D S : Type 0} (dec : Decimals D S) where
  -- compareDecimal128: an error of BigInt is passed on.
  unfoldable pub compare_decimal128 : D → D → Result ℤ
  unfolding compare_parts
  compare_decimal128 d1 d2 = do b1 ← dec.big_int d1; b2 ← dec.big_int d2; ok (compare_parts b1 b2)

  -- Where BigInt succeeds, so does the comparison.
  pub compare_decimal128-ok :
      (d1 d2 : D) (p1 p2 : ℤ × ℤ)
      → dec.big_int d1 ≡ ok p1
      → dec.big_int d2 ≡ ok p2
      → compare_decimal128 d1 d2 ≡ ok (compare_parts p1 p2)
  unfolding compare_decimal128
  compare_decimal128-ok d1 d2 p1 p2 h1 h2 = rw (h1, h2, compare_decimal128)
