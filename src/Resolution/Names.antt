-- ===== src/Resolution/Names.antt =====
-- The declared resolutions of internal/model/resolution.go, and the test for any other text.
use ohlcv.Base.{
  ◌≡◌, refl, ◌↔◌, Bool, true, false, String, List, [], ◌∷◌, Option, none, some, arith, str_eq,
  eq_iff, if◌then◌else◌,
}

-- The constants of the source, by name.
pub data Named : Type 0 where
  candle_1m candle_3m candle_5m candle_15m candle_30m : Named
  candle_1h candle_2h candle_4h candle_6h candle_12h : Named
  candle_1mh candle_1d : Named
  candle_1h2 candle_2h2 candle_4h2 candle_6h2 candle_12h2 candle_1w candle_1mh2 : Named

-- The text of each constant.
unfoldable pub text : Named → String
text candle_1m = "1"
text candle_3m = "3"
text candle_5m = "5"
text candle_15m = "15"
text candle_30m = "30"
text candle_1h = "60"
text candle_2h = "120"
text candle_4h = "240"
text candle_6h = "360"
text candle_12h = "720"
text candle_1d = "1D"
text candle_1mh = "1MH"
text candle_1h2 = "1H"
text candle_2h2 = "2H"
text candle_4h2 = "4H"
text candle_6h2 = "6H"
text candle_12h2 = "12H"
text candle_1w = "1W"
text candle_1mh2 = "1M"

unfoldable pub get_available_resolutions : List Named
get_available_resolutions =
    candle_1m ∷ candle_3m ∷ candle_5m ∷ candle_15m ∷ candle_30m ∷ candle_1h ∷ candle_2h ∷ candle_4h
    ∷ candle_6h ∷ candle_12h ∷ candle_1d ∷ candle_1mh ∷ candle_1h2 ∷ candle_2h2 ∷ candle_4h2
    ∷ candle_6h2 ∷ candle_12h2 ∷ candle_1w ∷ candle_1mh2 ∷ []

-- The first of the listed constants that equals the text.
first_match : String → List Named → Option Named
first_match r [] = none
first_match r (n ∷ ns) = if str_eq r (text n) then some n else first_match r ns

-- The case that `switch resolution` takes, and `none` for its default.
unfoldable pub named : String → Option Named
unfolding first_match get_available_resolutions text
named r = first_match r get_available_resolutions

-- `for _, r := range resolutions { if resolution == r { return false } }; return true`
unfoldable pub differs_from_all : String → List Named → Bool
differs_from_all r [] = true
differs_from_all r (n ∷ ns) = if str_eq r (text n) then false else differs_from_all r ns

unfoldable pub is_not_exist : String → Bool
unfolding differs_from_all get_available_resolutions text
is_not_exist r = differs_from_all r get_available_resolutions

first_match-text :
    (r : String) (ns : List Named) (n : Named) → first_match r ns ≡ some n → r ≡ text n
unfolding first_match
first_match-text r (m ∷ ns) n h = ground (arith, eq_iff r (text m), first_match-text r ns n)
first_match-text r [] n h = ground arith

differs-iff-no_match :
    (r : String) (ns : List Named) → (differs_from_all r ns ≡ true) ↔ (first_match r ns ≡ none)
unfolding differs_from_all first_match
differs-iff-no_match r [] = ground arith
differs-iff-no_match r (n ∷ ns) = ground (arith, differs-iff-no_match r ns)

-- Every constant is dispatched to itself.
pub named-text : (n : Named) → named (text n) ≡ some n
unfolding named
named-text candle_1m = refl
named-text candle_3m = refl
named-text candle_5m = refl
named-text candle_15m = refl
named-text candle_30m = refl
named-text candle_1h = refl
named-text candle_2h = refl
named-text candle_4h = refl
named-text candle_6h = refl
named-text candle_12h = refl
named-text candle_1d = refl
named-text candle_1mh = refl
named-text candle_1h2 = refl
named-text candle_2h2 = refl
named-text candle_4h2 = refl
named-text candle_6h2 = refl
named-text candle_12h2 = refl
named-text candle_1w = refl
named-text candle_1mh2 = refl

-- A text is dispatched to a constant exactly when it is the constant's text.
pub named_iff : (r : String) (n : Named) → (named r ≡ some n) ↔ (r ≡ text n)
unfolding named
named_iff r n = (first_match-text r get_available_resolutions n, λ e. rw e (named-text n))

-- IsNotExist answers true exactly for the texts that every switch on a resolution sends to its
-- default case.
pub is_not_exist_iff : (r : String) → (is_not_exist r ≡ true) ↔ (named r ≡ none)
unfolding is_not_exist named
is_not_exist_iff r = differs-iff-no_match r get_available_resolutions
