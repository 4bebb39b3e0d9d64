-- ===== src/Text/Spaces.antt =====
-- Which texts TrimSpace leaves nothing of.
use Prim.Native.Char.{code}
use Prim.Native.String.{[] as no_text, ◌∷◌ as text_cons}
use ohlcv.Base.{◌≡◌, refl, ◌↔◌, inl, inr, true, String, str_eq, eq_iff, Bool-cases}
use text.Mathlib.TextLemmas.{cons≢nil}
use ohlcv.Text.{is_space, trim_left, trim_right, trim_space}

-- Every character is a space.
abbrev pub IsBlank : String → Type 0
IsBlank no_text = Unit
IsBlank (text_cons c s) = (is_space (code c) ≡ true) × IsBlank s

trim_left_blank : (s : String) → IsBlank s → trim_left s ≡ ""
unfolding trim_left
trim_left_blank no_text h = refl
trim_left_blank (text_cons c s) h = rw (h.0) (trim_left_blank s h.1)

trim_right-IsBlank : (s : String) → trim_right s ≡ "" → IsBlank s
unfolding trim_right
trim_right-IsBlank no_text h = tt
trim_right-IsBlank (text_cons c s) h = elim (Bool-cases (str_eq (trim_right s) "")) [
  | inl rest ↦ elim (Bool-cases (is_space (code c))) [
    | inl space ↦ (space, trim_right-IsBlank s ((eq_iff (trim_right s) "").0 rest))
    | inr other ↦ absurd (cons≢nil (rw (rest, other) at h))
  ]
  | inr rest ↦ absurd (cons≢nil (rw rest at h))
]

trim_left-IsBlank : (s : String) → IsBlank (trim_left s) → IsBlank s
unfolding trim_left
trim_left-IsBlank no_text h = tt
trim_left-IsBlank (text_cons c s) h = elim (Bool-cases (is_space (code c))) [
  | inl space ↦ (space, trim_left-IsBlank s (rw space at h))
  | inr other ↦ rw other at h
]

-- A text is trimmed to nothing exactly when it has nothing but spaces.
pub trim_space-empty_iff : (s : String) → (trim_space s ≡ "") ↔ IsBlank s
unfolding trim_space trim_right
trim_space-empty_iff s = (
  λ e. trim_left-IsBlank s (trim_right-IsBlank (trim_left s) e),
  λ b. rw (trim_left_blank s b) refl,
)
