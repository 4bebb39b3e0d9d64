-- ===== src/Markets/Names.antt =====
-- What becomes of the names of markets.
use Prim.Native.Char.{Char, code}
use Prim.Native.String.{◌++◌ as text_append, [] as no_text, ◌∷◌ as text_cons}
use text.Mathlib.TextEquality.{Char-path}
use text.Mathlib.TextLemmas.{cons-append, nil-append}
use ohlcv.Base.{
  suc, ◌≡◌, refl, ◌∙◌, ap, ◌⊎◌, inl, inr, false, String, none, some, arith, Bool-cases, ◌==◌,
  ==_iff, true, sym,
}
use ohlcv.Text.{begins_with, text_length, index, take_text, drop_text, replace}
use ohlcv.Text.Replacing.{or_false, occurs, replace-absent, occurs-replace_from, replaced-occurs}
use ohlcv.Markets.{flip_markets, normalize_market_name}

-- A normalized name has no slash and no "%2F", and a name with neither is left as it is.
pub normalize_market_name-IsNormal :
    (market : String)
    → (occurs "/" (normalize_market_name market) ≡ false)
      × (occurs "%2F" (normalize_market_name market) ≡ false)
      × (occurs "/" market ≡ false
          → occurs "%2F" market ≡ false
          → normalize_market_name market ≡ market)
unfolding normalize_market_name replace
normalize_market_name-IsNormal market = (
  replaced-occurs 0 "/" "" (replace market "%2F" "_") (refl, tt),
  occurs-replace_from 0 "/" "%" "2F" (replace market "%2F" "_") (refl, (refl, (refl, tt)))
      (replaced-occurs 0 "%" "2F" market (refl, (refl, (refl, tt)))),
  λ slash escaped.
      rw (replace-absent "%2F" "_" market escaped) (replace-absent "/" "_" market slash),
)

-- A name without the separator.
index-absent : (s sep : String) → occurs sep s ≡ false → index s sep ≡ none
unfolding index occurs
index-absent no_text sep h = rw h refl
index-absent (text_cons c s) sep h =
    let (here, later) = or_false (begins_with sep (text_cons c s)) (occurs sep s) h in
    rw (here, index-absent s sep later) refl

same_code : (c : Char) → (code c == code c) ≡ true
same_code c = ground arith

-- A text, the separator, and another text.
abbrev joined_by : Char → String → String → String
joined_by sep front back = text_append front (text_cons sep back)

index-joined_by :
    (sep : Char) (front back : String)
    → occurs (text_cons sep "") front ≡ false
    → index (joined_by sep front back) (text_cons sep "") ≡ some (text_length front)
unfolding index occurs begins_with text_length
index-joined_by sep no_text back h = rw (nil-append (text_cons sep back), same_code sep) refl
index-joined_by sep (text_cons c front) back h =
    let (here, later) =
      or_false (begins_with (text_cons sep "") (text_cons c front))
        (occurs (text_cons sep "") front) h in
    rw (cons-append c front (text_cons sep back), here, index-joined_by sep front back later) refl

take_text-append :
    (front back : String) → take_text (text_length front) (text_append front back) ≡ front
unfolding take_text text_length
take_text-append no_text back = refl
take_text-append (text_cons c front) back =
    rw (cons-append c front back, take_text-append front back) refl

drop_text-joined_by :
    (sep : Char) (front back : String)
    → drop_text (suc (text_length front)) (joined_by sep front back) ≡ back
unfolding drop_text text_length
drop_text-joined_by sep no_text back = rw (nil-append (text_cons sep back)) refl
drop_text-joined_by sep (text_cons c front) back =
    rw (cons-append c front (text_cons sep back)) (drop_text-joined_by sep front back)

-- Every text is without the separator, or is cut by its first one.
abbrev Cut : Char → String → Type 0
Cut sep s =
    (occurs (text_cons sep "") s ≡ false)
    ⊎ ((front : String) × (back : String) × (s ≡ joined_by sep front back)
        × (occurs (text_cons sep "") front ≡ false))

cut : (sep : Char) (s : String) → Cut sep s
unfolding occurs
cut sep no_text = inl refl
cut sep (text_cons c s) = elim (Bool-cases (code sep == code c)) [
  | inl same ↦
      let equal : sep ≡ c = Char-path sep c ((==_iff (code sep) (code c)).0 same) in
      inr (no_text, s, ap (λ d. text_cons d s) (sym equal) ∙ sym (nil-append _), refl)
  | inr other ↦ elim (cut sep s) [
    | inl absent ↦ inl (rw (other, absent) refl)
    | inr (front, back, e, absent) ↦ inr (
      text_cons c front,
      back,
      ap (text_cons c) e ∙ sym (cons-append c front (text_cons sep back)),
      rw (other, absent) refl,
    )
  ]
]

swapped :
    (front back : String)
    → occurs "/" front ≡ false
    → flip_markets (joined_by "/" front back) "/" ≡ text_append back (text_append "_" front)
unfolding flip_markets
swapped front back absent =
    rw
      (
        index-joined_by "/" front back absent,
        flip_markets,
        drop_text-joined_by "/" front back,
        take_text-append front (text_cons "/" back),
      )
      refl

slash : (back : String) → text_cons "/" back ≡ text_append "/" back
slash back = sym (cons-append "/" "" back ∙ ap (text_cons "/") (nil-append back))

-- A name without a slash is left as it is; any other is cut at its first slash, and the two parts
-- change places, with "_" between them.
pub flip_markets-Flipped :
    (s : String)
    → ((occurs "/" s ≡ false) × (flip_markets s "/" ≡ s))
      ⊎ ((front : String) × (back : String) × (s ≡ text_append front (text_append "/" back))
          × (occurs "/" front ≡ false)
          × (flip_markets s "/" ≡ text_append back (text_append "_" front)))
unfolding flip_markets
flip_markets-Flipped s = elim (cut "/" s) [
  | inl absent ↦ inl (absent, rw (index-absent s "/" absent, flip_markets) refl)
  | inr (front, back, e, absent) ↦ inr (
    front,
    back,
    e ∙ ap (text_append front) (slash back),
    absent,
    ap (λ t. flip_markets t "/") e ∙ swapped front back absent,
  )
]
