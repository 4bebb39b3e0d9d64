-- ===== src/Deals/Pattern.antt =====
-- What the pattern of a market's name matches.
use mathlib.Core.Bool.{false≢true}
use mathlib.Core.Path.{ap₂}
use ohlcv.Base.{
  ℕ, zero, suc, ◌≤◌, ◌≡◌, refl, sym, ◌∙◌, ap, ◌↔◌, ◌⊎◌, inl, inr, Bool, true, false, ◌&&◌, String,
  List, [], ◌∷◌, ◌++◌, Option, none, some, leb, length, All, arith, Bool-cases, Option-cases,
  some-injective, none-ne-some,
}
use ohlcv.Text.{codes}
use ohlcv.Deals.{
  upper_letters, is_found, second_half, matches_here, matches_somewhere, market_matches,
}

-- A … Z.
abbrev pub IsUpper : ℕ → Type 0
IsUpper c = (65 ≤ c) × (c ≤ 90)

-- Three or four capital letters.
abbrev pub IsCode : List ℕ → Type 0
IsCode a = All IsUpper a × (3 ≤ length a) × (length a ≤ 4)

-- Two codes with "_" between them, anywhere in the text.
pub record HasPair (s : List ℕ) : Type 0 where
  pub front : List ℕ
  pub base : List ℕ
  pub quote : List ℕ
  pub back : List ℕ
  pub parts : s ≡ front ++ (base ++ (95 ∷ (quote ++ back)))
  pub base_code : IsCode base
  pub quote_code : IsCode quote

upper_letters-some :
    (n : ℕ) (cs rest : List ℕ)
    → upper_letters n cs ≡ some rest
    → (a : List ℕ) × (cs ≡ a ++ rest) × All IsUpper a × (length a ≡ n)
unfolding upper_letters
upper_letters-some zero cs rest e = ([], some-injective e, tt, refl)
upper_letters-some (suc n) [] rest e = cc
upper_letters-some (suc n) (c ∷ cs) rest e = elim (Bool-cases (leb 65 c && leb c 90)) [
  | inl upper ↦
      let (a, parts, letters, len) =
        upper_letters-some n cs rest (rw (upper, upper_letters) at e) in
      (c ∷ a, ap (◌∷◌ c) parts, (ground (arith, upper), letters), ap suc len)
  | inr other ↦ absurd (none-ne-some (rw (other, upper_letters) at e))
]

-- Letters that are there are found, and what follows them is left.
upper_letters-append :
    (a rest : List ℕ) → All IsUpper a → upper_letters (length a) (a ++ rest) ≡ some rest
unfolding upper_letters
upper_letters-append [] rest h = refl
upper_letters-append (c ∷ a) rest h = ground (arith, upper_letters-append a rest h.1, h.0)

upper_letters-found :
    (n : ℕ) (a rest : List ℕ)
    → All IsUpper a
    → n ≤ length a
    → is_found (upper_letters n (a ++ rest)) ≡ true
unfolding upper_letters is_found
upper_letters-found zero a rest h lo = refl
upper_letters-found (suc n) [] rest h lo = absurd (omega (arith, lo))
upper_letters-found (suc n) (c ∷ a) rest h lo =
    ground (arith, upper_letters-found n a rest h.1 (omega (arith, lo)), h.0)

is_found-some : (o : Option (List ℕ)) → is_found o ≡ true → (rest : List ℕ) × (o ≡ some rest)
unfolding is_found
is_found-some none h = absurd (false≢true h)
is_found-some (some rest) h = (rest, refl)

-- What follows the first code: "_" and three letters.
abbrev Follows : List ℕ → Type 0
Follows t =
    (quote : List ℕ) × (back : List ℕ) × (t ≡ 95 ∷ (quote ++ back))
    × All IsUpper quote
    × (length quote ≡ 3)

second_half-Follows : (t : List ℕ) → second_half (some t) ≡ true → Follows t
unfolding second_half
second_half-Follows [] h = absurd (false≢true h)
second_half-Follows (c ∷ cs) h =
    let (underscore, later) =
      second_half_parts (leb 95 c && leb c 95) (is_found (upper_letters 3 cs)) h in
    let (back, found) = is_found-some (upper_letters 3 cs) later in
    let (quote, parts, letters, len) = upper_letters-some 3 cs back found in
    let same : c ≡ 95 = ground (arith, underscore) in
    (quote, back, ap₂ ◌∷◌ same parts, letters, len)
  where
    second_half_parts : (a b : Bool) → (a && b) ≡ true → (a ≡ true) × (b ≡ true)
    second_half_parts true b h = (refl, h)
    second_half_parts false b h = absurd (false≢true h)

-- A code of n letters, and what follows it.
pair_of :
    (n : ℕ) (cs : List ℕ) → 3 ≤ n → n ≤ 4 → second_half (upper_letters n cs) ≡ true → HasPair cs
unfolding second_half
pair_of n cs lo hi h = elim (Option-cases (upper_letters n cs)) [
  | inl e ↦ absurd (false≢true (sym (ap second_half e) ∙ h))
  | inr (t, e) ↦
      let (base, parts, letters, len) = upper_letters-some n cs t e in
      let (quote, back, follows, letters', len') =
        second_half-Follows t (sym (ap second_half e) ∙ h) in
      record {
        front = [];
        base = base;
        quote = quote;
        back = back;
        parts = parts ∙ ap (◌++◌ base) follows;
        base_code = (letters, omega (arith, len, lo), omega (arith, len, hi));
        quote_code = (letters', omega (arith, len'), omega (arith, len'));
      }
]

matches_here-HasPair : (cs : List ℕ) → matches_here cs ≡ true → HasPair cs
unfolding matches_here
matches_here-HasPair cs h = elim (Bool-cases (second_half (upper_letters 3 cs))) [
  | inl three ↦ pair_of 3 cs (omega arith) (omega arith) three
  | inr other ↦ pair_of 4 cs (omega arith) (omega arith) (ground (arith, h, other))
]

matches_somewhere-HasPair : (cs : List ℕ) → matches_somewhere cs ≡ true → HasPair cs
unfolding matches_somewhere
matches_somewhere-HasPair [] h = absurd (false≢true h)
matches_somewhere-HasPair (c ∷ cs) h = elim (Bool-cases (matches_here (c ∷ cs))) [
  | inl here ↦ matches_here-HasPair (c ∷ cs) here
  | inr other ↦
      let p = matches_somewhere-HasPair cs (ground (arith, h, other)) in
      record {
        front = c ∷ p.front;
        base = p.base;
        quote = p.quote;
        back = p.back;
        parts = ap (◌∷◌ c) p.parts;
        base_code = p.base_code;
        quote_code = p.quote_code;
      }
]

-- A pair at the beginning is matched there.
second_half-code :
    (base quote back : List ℕ)
    → IsCode base
    → IsCode quote
    → second_half (upper_letters (length base) (base ++ (95 ∷ (quote ++ back)))) ≡ true
unfolding second_half
second_half-code base quote back b q =
    ap second_half (upper_letters-append base (95 ∷ (quote ++ back)) b.0)
    ∙ upper_letters-found 3 quote back q.0 q.1

matches_here-code :
    (base quote back : List ℕ)
    → IsCode base
    → IsCode quote
    → matches_here (base ++ (95 ∷ (quote ++ back))) ≡ true
unfolding matches_here
matches_here-code base quote back b q = elim (length_cases (length base) b.1 b.2) [
  | inl e ↦ ground (arith, matched 3 e)
  | inr e ↦ ground (arith, matched 4 e)
]
  where
    length_cases : (n : ℕ) → 3 ≤ n → n ≤ 4 → (n ≡ 3) ⊎ (n ≡ 4)
    length_cases n lo hi = ground (arith, lo, hi)

    matched :
        (n : ℕ)
        → length base ≡ n
        → second_half (upper_letters n (base ++ (95 ∷ (quote ++ back)))) ≡ true
    matched n e =
        ap (λ k. second_half (upper_letters k (base ++ (95 ∷ (quote ++ back))))) (sym e)
        ∙ second_half-code base quote back b q

matches_somewhere-here : (cs : List ℕ) → matches_here cs ≡ true → matches_somewhere cs ≡ true
unfolding matches_somewhere matches_here second_half upper_letters
matches_somewhere-here [] h = absurd (false≢true h)
matches_somewhere-here (c ∷ cs) h = rw h refl

matches_somewhere-later :
    (front cs : List ℕ) → matches_somewhere cs ≡ true → matches_somewhere (front ++ cs) ≡ true
unfolding matches_somewhere
matches_somewhere-later [] cs h = h
matches_somewhere-later (c ∷ front) cs h = ground (arith, matches_somewhere-later front cs h)

-- The pattern matches exactly the texts that have two codes of three or four capital letters, with "_"
-- between them, somewhere.
pub market_matches_iff : (s : String) → (market_matches s ≡ true) ↔ HasPair (codes s)
unfolding market_matches
market_matches_iff s = (
  matches_somewhere-HasPair (codes s),
  λ p.
      ap matches_somewhere p.parts
      ∙ matches_somewhere-later p.front _ (
          matches_somewhere-here (p.base ++ (95 ∷ (p.quote ++ p.back)))
            (matches_here-code p.base p.quote p.back p.base_code p.quote_code)),
)
