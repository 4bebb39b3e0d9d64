-- ===== src/Decimal.antt =====
-- What the service uses of two packages outside the repository: the driver's primitive.Decimal128
-- (`D`) and shopspring's decimal.Decimal (`S`). A nil error is `ok`.
pub mod Compare
use ohlcv.Base.{ℕ, ◌≡◌, ◌↔◌, Bool, true, String, ℤ, Result, ok, err, ◌>>=◌}

pub record Decimals (D S : Type 0) : Type 0 where
  -- ParseDecimal128, String, BigInt (coefficient and exponent), IsZero, IsNaN and IsInf.
  pub parse_decimal128 : String → Result D
  pub to_text : D → String
  pub big_int : D → Result (ℤ × ℤ)
  pub is_zero : D → Bool
  pub is_nan : D → Bool
  pub is_inf : D → ℤ
  -- Decimal128{}, and Go's == on the struct.
  pub empty : D
  pub same : D → D → Bool
  pub same_iff : (a b : D) → (same a b ≡ true) ↔ (a ≡ b)
  -- Decimal{}, NewFromString, Add and String of shopspring's decimals.
  pub empty_sum : S
  pub new_from_string : String → Result S
  pub add : S → S → S
  pub sum_text : S → String

module _ {D S : Type 0} (dec : Decimals D S) where
  -- addPrimitiveDecimal128 of candle/aggregator.go.
  unfoldable pub add_primitive_decimal128 : D → D → Result D
  add_primitive_decimal128 a b = do
    ad ← dec.new_from_string (dec.to_text a)
    bd ← dec.new_from_string (dec.to_text b)
    result ← dec.parse_decimal128 (dec.sum_text (dec.add ad bd))
    ok result
