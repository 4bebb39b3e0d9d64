-- ===== src/Text/Replacing.antt =====
-- What replacing every occurrence of a text by "_" leaves.
use Prim.Native.Char.{Char, code}
use Prim.Native.String.{◌++◌ as text_append, [] as no_text, ◌∷◌ as text_cons}
use ohlcv.Base.{
  ℕ, zero, suc, ◌-◌, ◌≡◌, refl, true, false, ◌&&◌, ◌||◌, ◌==◌, String, inl, inr, arith, Bool,
  Bool-cases,
}
use text.Mathlib.TextLemmas.{cons-append, nil-append}
use ohlcv.Text.{begins_with, text_length, replace_from}

-- strings.Contains.
unfoldable pub occurs : String → String → Bool
unfolding begins_with
occurs p no_text = begins_with p ""
occurs p (text_cons c s) = begins_with p (text_cons c s) || occurs p s

-- No character is a bar.
abbrev pub HasNoBar : String → Type 0
HasNoBar no_text = Unit
HasNoBar (text_cons c s) = ((code c == 95) ≡ false) × HasNoBar s

pub or_false : (a b : Bool) → (a || b) ≡ false → (a ≡ false) × (b ≡ false)
or_false a b h = ground arith

pub false_or : (a b : Bool) → a ≡ false → b ≡ false → (a || b) ≡ false
false_or a b h k = ground arith

-- A text with no bar does not begin where a bar stands.
bar-begins_with :
    (c : Char) (p s : String)
    → (code c == 95) ≡ false
    → begins_with (text_cons c p) (text_append "_" s) ≡ false
unfolding begins_with
bar-begins_with c p s h = rw (cons-append _ no_text s, h) refl

bar-occurs :
    (c : Char) (p s : String)
    → (code c == 95) ≡ false
    → occurs (text_cons c p) s ≡ false
    → occurs (text_cons c p) (text_append "_" s) ≡ false
unfolding begins_with occurs
bar-occurs c p s h later = rw (cons-append _ no_text s, nil-append s, h) later

-- Where the text does not occur, nothing is replaced.
pub replace-absent : (old new s : String) → occurs old s ≡ false → replace_from 0 old new s ≡ s
unfolding replace_from occurs
replace-absent old new no_text h = refl
replace-absent old new (text_cons c s) h =
    let (here, later) = or_false (begins_with old (text_cons c s)) (occurs old s) h in
    rw (here, replace-absent old new s later) refl

-- A bar is written where something was replaced, so what begins the result began the text.
begins_with-replace_from :
    (old p s : String)
    → HasNoBar p
    → begins_with p (replace_from 0 old "_" s) ≡ true
    → begins_with p s ≡ true
unfolding begins_with replace_from
begins_with-replace_from old no_text s b h = refl
begins_with-replace_from old (text_cons d p) no_text b h = h
begins_with-replace_from old (text_cons d p) (text_cons c s) b h =
    elim (Bool-cases (begins_with old (text_cons c s))) [
      | inl replaced ↦
          cc (
            bar-begins_with d p (replace_from (text_length old - 1) old "_" s) b.0,
            rw replaced at h,
          )
      | inr kept ↦
          let kept_h : ((code d == code c) && begins_with p (replace_from 0 old "_" s)) ≡ true =
            rw kept at h in
          ground (arith, begins_with-replace_from old p s b.1)
    ]

not_begun :
    (old p s : String)
    → HasNoBar p
    → begins_with p s ≡ false
    → begins_with p (replace_from 0 old "_" s) ≡ false
not_begun old p s b h = elim (Bool-cases (begins_with p (replace_from 0 old "_" s))) [
  | inl begun ↦ cc (begins_with-replace_from old p s b begun)
  | inr other ↦ other
]

-- Nothing new occurs.
pub occurs-replace_from :
    (k : ℕ) (old : String) (o : Char) (p s : String)
    → HasNoBar (text_cons o p)
    → occurs (text_cons o p) s ≡ false
    → occurs (text_cons o p) (replace_from k old "_" s) ≡ false
unfolding occurs replace_from begins_with
occurs-replace_from k old o p no_text b h = refl
occurs-replace_from (suc k) old o p (text_cons c s) b h =
    occurs-replace_from k old o p s b (or_false _ (occurs (text_cons o p) s) h).1
occurs-replace_from zero old o p (text_cons c s) b h =
    elim (Bool-cases (begins_with old (text_cons c s))) [
      | inl replaced ↦ rw replaced (
          bar-occurs o p _ b.0 (
            occurs-replace_from (text_length old - 1) old o p s b
              (or_false _ (occurs (text_cons o p) s) h).1))
      | inr kept ↦
          let (here, later) =
            or_false (begins_with (text_cons o p) (text_cons c s)) (occurs (text_cons o p) s) h in
          let start : begins_with (text_cons o p) (text_cons c (replace_from 0 old "_" s)) ≡ false =
            rw kept at (not_begun old (text_cons o p) (text_cons c s) b here) in
          rw kept (false_or _ _ start (occurs-replace_from zero old o p s b later))
    ]

-- Nothing that was to be replaced is left.
pub replaced-occurs :
    (k : ℕ) (o : Char) (old s : String)
    → HasNoBar (text_cons o old)
    → occurs (text_cons o old) (replace_from k (text_cons o old) "_" s) ≡ false
unfolding occurs replace_from begins_with
replaced-occurs k o old no_text b = refl
replaced-occurs (suc k) o old (text_cons c s) b = replaced-occurs k o old s b
replaced-occurs zero o old (text_cons c s) b =
    elim (Bool-cases (begins_with (text_cons o old) (text_cons c s))) [
      | inl replaced ↦
          rw replaced
            (bar-occurs o old _ b.0 (replaced-occurs (text_length (text_cons o old) - 1) o old s b))
      | inr kept ↦
          let start : begins_with (text_cons o old)
                (text_cons c (replace_from 0 (text_cons o old) "_" s))
              ≡ false =
            rw kept at (not_begun (text_cons o old) (text_cons o old) (text_cons c s) b kept) in
          rw kept (false_or _ _ start (replaced-occurs zero o old s b))
    ]
