-- ===== src/Current/Ohlc.antt =====
-- The candle that a series of deals makes, against what open, high, low and close mean.
use Prim.Native.Nat.{min, max}
use mathlib.Core.List.{foldl}
use ohlcv.Base.{
  ok-injective, bind-ok, ℕ, suc, ◌-◌, ◌<◌, subst, ◌≡◌, refl, sym, ◌∙◌, ap, ◌⊎◌, inl, inr, Bool,
  true, false, ◌||◌, List, [], ◌∷◌, ℤ, pos, ltb, ltb_ℤ, Result, ok, ◌>>=◌, if◌then◌else◌, All,
  arith,
}
use ohlcv.Decimal.{Decimals, add_primitive_decimal128}
use ohlcv.Decimal.Compare.{
  compare_decimal128, compare_parts, compare_parts-eq_exp, compare_parts-pos_zero,
  compare_decimal128-ok, cmp,
}
use ohlcv.Candle.{Candle}
use ohlcv.Current.Update.{Updated, update_candle-Updated}
use ohlcv.Current.{Deal, update_candle}

-- A deal, what its price parses to, and the coefficient of that price.
pub record Trade (D : Type 0) : Type 0 where
  pub deal : Deal
  pub price : D
  pub coefficient : ℕ

or_true : (b : Bool) → (b || true) ≡ true
or_true true = refl
or_true false = refl

or_false : (b : Bool) → (b || false) ≡ b
or_false true = refl
or_false false = refl

cmp-above : (n hi : ℕ) → ltb_ℤ (pos 0) (cmp (pos n) (pos hi)) ≡ ltb hi n
cmp-above n hi = ground arith

cmp-below : (n lo : ℕ) → ltb_ℤ (cmp (pos n) (pos lo)) (pos 0) ≡ ltb n lo
cmp-below n lo = ground arith

if-max : (hi n : ℕ) → (if ltb hi n then n else hi) ≡ max hi n
if-max hi n = ground arith

if-min : (lo n : ℕ) → (if ltb n lo then n else lo) ≡ min lo n
if-min lo n = ground arith

min-pos : (a b : ℕ) → 0 < a → 0 < b → 0 < min a b
min-pos a b h k = omega arith

suc-pred : (n : ℕ) → 0 < n → n ≡ suc (n - 1)
suc-pred n h = omega arith

module _ {D S : Type 0} (dec : Decimals D S) where
  abbrev pub IsPositive : D → Type 0
  IsPositive d = (n : ℕ) × (e : ℤ) × (dec.big_int d ≡ ok (pos (suc n), e))

  -- What the packages say of zero, and of sums of positive amounts.
  pub record IsOrdinary : Type 0 where
    pub zero_exponent : ℤ
    pub empty_big_int : dec.big_int dec.empty ≡ ok (pos 0, zero_exponent)
    pub empty_is_zero : dec.is_zero dec.empty ≡ true
    pub positive_is_zero : (d : D) → IsPositive d → dec.is_zero d ≡ false
    pub sum_positive :
        (a b v : D)
        → IsPositive a
        → (b ≡ dec.empty) ⊎ IsPositive b
        → add_primitive_decimal128 dec a b ≡ ok v
        → IsPositive v

  -- The deal's price is positive and has the exponent; its amount is positive.
  pub record IsTrade (e : ℤ) (t : Trade D) : Type 0 where
    pub price_ok : dec.parse_decimal128 t.deal.price ≡ ok t.price
    pub big_int_ok : dec.big_int t.price ≡ ok (pos t.coefficient, e)
    pub positive : 0 < t.coefficient
    pub amount_ok : (a : D) → dec.parse_decimal128 t.deal.amount ≡ ok a → IsPositive a

  -- updateCandle for each deal in turn.
  unfoldable pub update_all : Candle D → List (Trade D) → Result (Candle D)
  update_all c [] = ok c
  update_all c (t ∷ ts) = do c' ← update_candle dec c t.deal; update_all c' ts

  -- A candle with deals, whose low and high have the coefficients.
  record Running (e : ℤ) (lo hi : ℕ) (c : Candle D) : Type 0 where
    volume : IsPositive c.volume
    high : dec.big_int c.high ≡ ok (pos hi, e)
    low : dec.big_int c.low ≡ ok (pos lo, e)
    positive : 0 < lo

  compare-result :
      (d d' : D) (p p' : ℤ × ℤ) (r : ℤ)
      → dec.big_int d ≡ ok p
      → dec.big_int d' ≡ ok p'
      → compare_decimal128 dec d d' ≡ ok r
      → r ≡ compare_parts p p'
  compare-result d d' p p' r h h' q =
      ok-injective (sym q ∙ compare_decimal128-ok dec d d' p p' h h')

  -- Of two decimals with coefficients, the chosen one has the chosen coefficient.
  choose :
      (b : Bool) (d d' : D) (n n' : ℕ) (e : ℤ)
      → dec.big_int d ≡ ok (pos n, e)
      → dec.big_int d' ≡ ok (pos n', e)
      → dec.big_int (if b then d else d') ≡ ok (pos (if b then n else n'), e)
  choose true d d' n n' e h h' = h
  choose false d d' n n' e h h' = h'

  price-eq :
      {e : ℤ} {t : Trade D} {c c' : Candle D} (k : IsTrade e t) (u : Updated dec c c' t.deal)
      → u.price ≡ t.price
  price-eq k u = ok-injective (sym u.price_ok ∙ k.price_ok)

  price_big_int :
      {e : ℤ} {t : Trade D} {c c' : Candle D} (k : IsTrade e t) (u : Updated dec c c' t.deal)
      → dec.big_int u.price ≡ ok (pos t.coefficient, e)
  price_big_int k u = ap dec.big_int (price-eq k u) ∙ k.big_int_ok

  step_first :
      (o : IsOrdinary) (e : ℤ) (c c' : Candle D) (t : Trade D)
      → c.volume ≡ dec.empty
      → c.high ≡ dec.empty
      → c.low ≡ dec.empty
      → IsTrade e t
      → update_candle dec c t.deal ≡ ok c'
      → Running e t.coefficient t.coefficient c' × (c'.opening ≡ t.price) × (c'.closing ≡ t.price)
  step_first o e c c' t v h l k q = (
    record {
      volume =
          o.sum_positive u.amount c.volume c'.volume (k.amount_ok u.amount u.amount_ok) (inl v)
            u.volume_ok;
      high = ap dec.big_int high ∙ price_big_int k u;
      low = ap dec.big_int low ∙ price_big_int k u;
      positive = k.positive;
    },
    opening ∙ price-eq k u,
    ap (λ x. x.closing) u.is_moved ∙ price-eq k u,
  )
    where
      u : Updated dec c c' t.deal
      u = update_candle-Updated dec c c' t.deal q

      above : u.high_cmp ≡ pos 1
      above =
          compare-result u.price c.high (pos t.coefficient, e) (pos 0, o.zero_exponent) u.high_cmp
            (price_big_int k u) (ap dec.big_int h ∙ o.empty_big_int) u.high_ok
          ∙ compare_parts-pos_zero t.coefficient e o.zero_exponent k.positive

      high : c'.high ≡ u.price
      high =
          ap (λ x. x.high) u.is_moved ∙ ap (λ r. if ltb_ℤ (pos 0) r then u.price else c.high) above

      low : c'.low ≡ u.price
      low =
          ap (λ x. x.low) u.is_moved
          ∙ ap (λ b. if b then u.price else c.low)
              (ap (λ b. ltb_ℤ u.low_cmp (pos 0) || b) (ap dec.is_zero l ∙ o.empty_is_zero)
                ∙ or_true (ltb_ℤ u.low_cmp (pos 0)))

      opening : c'.opening ≡ u.price
      opening =
          ap (λ x. x.opening) u.is_moved
          ∙ ap (λ b. if b then u.price else c.opening) (ap dec.is_zero v ∙ o.empty_is_zero)

  step_next :
      (o : IsOrdinary) (e : ℤ) (lo hi : ℕ) (c c' : Candle D) (t : Trade D)
      → Running e lo hi c
      → IsTrade e t
      → update_candle dec c t.deal ≡ ok c'
      → Running e (min lo t.coefficient) (max hi t.coefficient) c'
        × (c'.opening ≡ c.opening)
        × (c'.closing ≡ t.price)
  step_next o e lo hi c c' t r k q = (
    record {
      volume =
          o.sum_positive u.amount c.volume c'.volume (k.amount_ok u.amount u.amount_ok)
            (inr r.volume) u.volume_ok;
      high =
          ap dec.big_int high
          ∙ choose (ltb hi n) u.price c.high n hi e (price_big_int k u) r.high
          ∙ ap (λ m. ok (pos m, e)) (if-max hi n);
      low =
          ap dec.big_int low
          ∙ choose (ltb n lo) u.price c.low n lo e (price_big_int k u) r.low
          ∙ ap (λ m. ok (pos m, e)) (if-min lo n);
      positive = min-pos lo n r.positive k.positive;
    },
    opening,
    ap (λ x. x.closing) u.is_moved ∙ price-eq k u,
  )
    where
      u : Updated dec c c' t.deal
      u = update_candle-Updated dec c c' t.deal q

      n : ℕ
      n = t.coefficient

      high : c'.high ≡ (if ltb hi n then u.price else c.high)
      high =
          ap (λ x. x.high) u.is_moved
          ∙ ap (λ b. if b then u.price else c.high)
              (ap (ltb_ℤ (pos 0)) (
                  compare-result u.price c.high (pos n, e) (pos hi, e) u.high_cmp
                    (price_big_int k u) r.high u.high_ok
                  ∙ compare_parts-eq_exp (pos n) (pos hi) e (inr (omega arith)))
                ∙ cmp-above n hi)

      low_positive : dec.is_zero c.low ≡ false
      low_positive =
          o.positive_is_zero c.low
            (lo - 1, e, r.low ∙ ap (λ m. ok (pos m, e)) (suc-pred lo r.positive))

      low : c'.low ≡ (if ltb n lo then u.price else c.low)
      low =
          ap (λ x. x.low) u.is_moved
          ∙ ap (λ b. if b then u.price else c.low)
              (ap (λ b. ltb_ℤ u.low_cmp (pos 0) || b) low_positive
                ∙ or_false (ltb_ℤ u.low_cmp (pos 0))
                ∙ ap (λ x. ltb_ℤ x (pos 0))
                    (compare-result u.price c.low (pos n, e) (pos lo, e) u.low_cmp
                        (price_big_int k u) r.low u.low_ok
                      ∙ compare_parts-eq_exp (pos n) (pos lo) e (inr (omega arith)))
                ∙ cmp-below n lo)

      opening : c'.opening ≡ c.opening
      opening =
          ap (λ x. x.opening) u.is_moved
          ∙ ap (λ b. if b then u.price else c.opening) (o.positive_is_zero c.volume r.volume)

  -- The closing price of a series whose last price so far is given.
  abbrev pub last_price : D → List (Trade D) → D
  last_price = foldl (λ d t. t.price)

  run_on :
      (o : IsOrdinary) (e : ℤ) (lo hi : ℕ) (c c' : Candle D) (ts : List (Trade D))
      → Running e lo hi c
      → All (IsTrade e) ts
      → update_all c ts ≡ ok c'
      → Running e
          (foldl (λ m t. min m t.coefficient) lo ts)
          (foldl (λ m t. max m t.coefficient) hi ts)
          c'
        × (c'.opening ≡ c.opening)
        × (c'.closing ≡ last_price c.closing ts)
  unfolding update_all
  run_on o e lo hi c c' [] r k q =
      let same = ok-injective q in
      (
        subst (Running e lo hi) same r,
        ap (λ x. x.opening) (sym same),
        ap (λ x. x.closing) (sym same),
      )
  run_on o e lo hi c c' (t ∷ ts) r k q =
      let (mid, first, rest) = bind-ok (update_candle dec c t.deal) (λ x. update_all x ts) c' q in
      let (r', opening, closing) = step_next o e lo hi c mid t r k.0 first in
      let (r'', opening', closing') =
        run_on o e (min lo t.coefficient) (max hi t.coefficient) mid c' ts r' k.1 rest in
      (r'', opening' ∙ opening, closing' ∙ ap (λ d. last_price d ts) closing)

  -- From a fresh candle, deals of positive amounts, at positive prices of one exponent, make a candle
  -- that opens at the first price and closes at the last, and whose high and low are the greatest
  -- and the least of the prices.
  pub update_all-ohlc :
      (o : IsOrdinary) (e : ℤ) (c c' : Candle D) (t : Trade D) (ts : List (Trade D))
      → c.volume ≡ dec.empty
      → c.high ≡ dec.empty
      → c.low ≡ dec.empty
      → All (IsTrade e) (t ∷ ts)
      → update_all c (t ∷ ts) ≡ ok c'
      → (c'.opening ≡ t.price)
        × (c'.closing ≡ last_price t.price ts)
        × (dec.big_int c'.high ≡ ok (pos (foldl (λ m x. max m x.coefficient) t.coefficient ts), e))
        × (dec.big_int c'.low ≡ ok (pos (foldl (λ m x. min m x.coefficient) t.coefficient ts), e))
  unfolding update_all
  update_all-ohlc o e c c' t ts v h l k q =
      let (mid, first, rest) = bind-ok (update_candle dec c t.deal) (λ x. update_all x ts) c' q in
      let (r, opening, closing) = step_first o e c mid t v h l k.0 first in
      let (r', opening', closing') = run_on o e _ _ mid c' ts r k.1 rest in
      (opening' ∙ opening, closing' ∙ ap (λ d. last_price d ts) closing, r'.high, r'.low)
