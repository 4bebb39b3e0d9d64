-- ===== src/Text/Numbers.antt =====
-- What strconv.ParseInt reads, of 32 bits.
use ohlcv.Base.{
  err-ne-ok, ℕ, ◌+◌, ◌-◌, ◌*◌, ◌≤◌, ◌<◌, ◌≡◌, ◌≢◌, refl, sym, ◌∙◌, ap, ◌↔◌, ◌⊎◌, inl, inr, Bool,
  true, false, ◌&&◌, String, List, [], ◌∷◌, ℤ, pos, sub_ℕ, leb, ltb, ◌==◌, ==_iff, All, ok, ◌>>=◌,
  bind-ok, ok-injective, arith, Bool-cases,
}
use ohlcv.Text.{codes, uint_from, parse_uint, with_sign, signed_from, parse_int}

-- 0 … 9.
abbrev pub IsDigit : ℕ → Type 0
IsDigit c = (48 ≤ c) × (c ≤ 57)

-- The number that digits write, after the digits of n.
abbrev pub value : ℕ → List ℕ → ℕ
value n [] = n
value n (c ∷ cs) = value (n * 10 + (c - 48)) cs

value-le : (n : ℕ) (cs : List ℕ) → n ≤ value n cs
value-le n [] = omega arith
value-le n (c ∷ cs) = omega (arith, value-le (n * 10 + (c - 48)) cs)

uint_from-value :
    (max n v : ℕ) (cs : List ℕ)
    → n ≤ max
    → uint_from max n cs ≡ ok v
    → All IsDigit cs × (value n cs ≡ v) × (v ≤ max)
unfolding uint_from
uint_from-value max n v [] le e = let same = ok-injective e in (tt, same, omega (arith, same, le))
uint_from-value max n v (c ∷ cs) le e = elim (Bool-cases (leb 48 c && leb c 57)) [
  | inr other ↦ absurd (err-ne-ok (rw (other, uint_from) at e))
  | inl digit ↦ elim (Bool-cases (ltb max (n * 10 + (c - 48)))) [
    | inl above ↦ absurd (err-ne-ok (rw (digit, above, uint_from) at e))
    | inr within ↦
        let rest =
          uint_from-value max (n * 10 + (c - 48)) v cs (ground (arith, within))
            (rw (digit, within, uint_from) at e) in
        ((ground (arith, digit), rest.0), rest.1, rest.2)
  ]
]

uint_from-ok :
    (max n : ℕ) (cs : List ℕ)
    → All IsDigit cs
    → value n cs ≤ max
    → uint_from max n cs ≡ ok (value n cs)
unfolding uint_from
uint_from-ok max n [] h le = refl
uint_from-ok max n (c ∷ cs) h le =
    let digit : (leb 48 c && leb c 57) ≡ true = ground (arith, h.0) in
    let within : ltb max (n * 10 + (c - 48)) ≡ false =
      ground (arith, value-le (n * 10 + (c - 48)) cs, le) in
    rw (digit, within, uint_from) (uint_from-ok max (n * 10 + (c - 48)) cs h.1 le)

-- A sign and digits, as the integer of 32 bits that they write.
abbrev pub IsSigned : List ℕ → ℤ → Type 0
IsSigned s z =
    (ds : List ℕ) × (ds ≢ [])
    × All IsDigit ds
    × (((s ≡ 45 ∷ ds) × (value 0 ds ≤ 2_147_483_648) × (z ≡ sub_ℕ 0 (value 0 ds)))
        ⊎ (((s ≡ 43 ∷ ds) ⊎ (s ≡ ds)) × (value 0 ds < 2_147_483_648) × (z ≡ pos (value 0 ds))))

-- Digits without a sign.
abbrev IsUnsigned : List ℕ → ℕ → Type 0
IsUnsigned ds n = (ds ≢ []) × All IsDigit ds × (value 0 ds ≡ n)

parse_uint-IsUnsigned : (ds : List ℕ) (n : ℕ) → parse_uint 32 ds ≡ ok n → IsUnsigned ds n
unfolding parse_uint
parse_uint-IsUnsigned [] n e = absurd (err-ne-ok e)
parse_uint-IsUnsigned (c ∷ cs) n e =
    let (digits, same, _) = uint_from-value 4_294_967_295 0 n (c ∷ cs) (omega arith) e in
    (λ h. cc, digits, same)

parse_uint-ok :
    (ds : List ℕ)
    → ds ≢ []
    → All IsDigit ds
    → value 0 ds ≤ 2_147_483_648
    → parse_uint 32 ds ≡ ok (value 0 ds)
unfolding parse_uint
parse_uint-ok [] ne h le = absurd (ne refl)
parse_uint-ok (c ∷ cs) ne h le = uint_from-ok 4_294_967_295 0 (c ∷ cs) h (omega (arith, le))

positive : (n : ℕ) (z : ℤ) → with_sign 32 false n ≡ ok z → (n < 2_147_483_648) × (z ≡ pos n)
unfolding with_sign
positive n z e = elim (Bool-cases (leb 2_147_483_648 n)) [
  | inl above ↦ absurd (err-ne-ok (rw above at e))
  | inr within ↦ (ground (arith, within), sym (ok-injective (rw within at e)))
]

negative : (n : ℕ) (z : ℤ) → with_sign 32 true n ≡ ok z → (n ≤ 2_147_483_648) × (z ≡ sub_ℕ 0 n)
unfolding with_sign
negative n z e = elim (Bool-cases (ltb 2_147_483_648 n)) [
  | inl above ↦ absurd (err-ne-ok (rw above at e))
  | inr within ↦ (ground (arith, within), sym (ok-injective (rw within at e)))
]

positive-ok : (n : ℕ) → n < 2_147_483_648 → with_sign 32 false n ≡ ok (pos n)
unfolding with_sign
positive-ok n h = let within : leb 2_147_483_648 n ≡ false = ground (arith, h) in rw within refl

negative-ok : (n : ℕ) → n ≤ 2_147_483_648 → with_sign 32 true n ≡ ok (sub_ℕ 0 n)
unfolding with_sign
negative-ok n h = let within : ltb 2_147_483_648 n ≡ false = ground (arith, h) in rw within refl

-- The digits, and then their sign.
with_digits :
    (ds : List ℕ) (is_negative : Bool) (z : ℤ)
    → (parse_uint 32 ds >>= with_sign 32 is_negative) ≡ ok z
    → (ds ≢ []) × All IsDigit ds × (with_sign 32 is_negative (value 0 ds) ≡ ok z)
with_digits ds is_negative z e =
    let (n, digits, signed) = bind-ok (parse_uint 32 ds) (with_sign 32 is_negative) z e in
    let (ne, h, same) = parse_uint-IsUnsigned ds n digits in
    (ne, h, ap (with_sign 32 is_negative) same ∙ signed)

signed_from-IsSigned : (s : List ℕ) (z : ℤ) → signed_from 32 s ≡ ok z → IsSigned s z
unfolding signed_from
signed_from-IsSigned [] z e = absurd (err-ne-ok e)
signed_from-IsSigned (c ∷ cs) z e = elim (Bool-cases (c == 45)) [
  | inl minus ↦
      let (ne, h, signed) = with_digits cs true z (rw (minus, signed_from) at e) in
      let (le, same) = negative (value 0 cs) z signed in
      (cs, ne, h, inl (ap (λ x. x ∷ cs) ((==_iff c 45).0 minus), le, same))
  | inr no_minus ↦ elim (Bool-cases (c == 43)) [
    | inl plus ↦
        let (ne, h, signed) = with_digits cs false z (rw (no_minus, plus, signed_from) at e) in
        let (lt, same) = positive (value 0 cs) z signed in
        (cs, ne, h, inr (inl (ap (λ x. x ∷ cs) ((==_iff c 43).0 plus)), lt, same))
    | inr no_plus ↦
        let (ne, h, signed) =
          with_digits (c ∷ cs) false z (rw (no_minus, no_plus, signed_from) at e) in
        let (lt, same) = positive (value 0 (c ∷ cs)) z signed in
        (c ∷ cs, ne, h, inr (inr refl, lt, same))
  ]
]

signed_minus :
    (ds : List ℕ)
    → ds ≢ []
    → All IsDigit ds
    → value 0 ds ≤ 2_147_483_648
    → signed_from 32 (45 ∷ ds) ≡ ok (sub_ℕ 0 (value 0 ds))
unfolding signed_from
signed_minus ds ne h le = rw (parse_uint-ok ds ne h le) (negative-ok (value 0 ds) le)

signed_plus :
    (ds : List ℕ)
    → ds ≢ []
    → All IsDigit ds
    → value 0 ds < 2_147_483_648
    → signed_from 32 (43 ∷ ds) ≡ ok (pos (value 0 ds))
unfolding signed_from
signed_plus ds ne h lt =
    rw (parse_uint-ok ds ne h (omega (arith, lt))) (positive-ok (value 0 ds) lt)

signed_none :
    (ds : List ℕ)
    → ds ≢ []
    → All IsDigit ds
    → value 0 ds < 2_147_483_648
    → signed_from 32 ds ≡ ok (pos (value 0 ds))
unfolding signed_from
signed_none [] ne h lt = absurd (ne refl)
signed_none (c ∷ cs) ne h lt =
    let no_minus : (c == 45) ≡ false = ground (arith, h.0) in
    let no_plus : (c == 43) ≡ false = ground (arith, h.0) in
    rw (no_minus, no_plus, parse_uint-ok (c ∷ cs) ne h (omega (arith, lt)))
      (positive-ok (value 0 (c ∷ cs)) lt)

-- ParseInt of 32 bits reads a sign, if any, and digits that write a number in its range, and refuses
-- everything else.
pub parse_int_iff : (s : String) (z : ℤ) → (parse_int 32 s ≡ ok z) ↔ IsSigned (codes s) z
unfolding parse_int
parse_int_iff s z = (
  signed_from-IsSigned (codes s) z,
  λ (ds, ne, h, form). elim form [
    | inl (e, le, same) ↦ ap (signed_from 32) e ∙ signed_minus ds ne h le ∙ ap ok (sym same)
    | inr (inl e, lt, same) ↦ ap (signed_from 32) e ∙ signed_plus ds ne h lt ∙ ap ok (sym same)
    | inr (inr e, lt, same) ↦ ap (signed_from 32) e ∙ signed_none ds ne h lt ∙ ap ok (sym same)
  ],
)
