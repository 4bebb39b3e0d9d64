-- ===== src/Text.antt =====
-- What the service uses of Go's strings and strconv: TrimSpace, ToUpper, Index, Replace, ParseInt
-- and Atoi, over texts as sequences of code points.
pub mod Spaces
pub mod Replacing
pub mod Numbers
use Prim.Native.Char.{Char, code}
use Prim.Native.String.{◌++◌ as text_append, [] as no_text, ◌∷◌ as text_cons, char_at}
use mathlib.Core.Option
use ohlcv.Base.{
  ℕ, zero, suc, ◌+◌, ◌-◌, ◌*◌, ◌^◌, ◌≡◌, refl, sub_ℕ, ◌>>=◌, Bool, true, false, not, ◌&&◌, ◌||◌,
  String, List, [], ◌∷◌, Option, none, some, ℤ, pos, negsuc, leb, ltb, ◌==◌, str_eq, Result, ok,
  err, if◌then◌else◌,
}

-- The numbers of the characters.
unfoldable pub codes : String → List ℕ
codes no_text = []
codes (text_cons c s) = code c ∷ codes s

-- unicode.IsSpace.
unfoldable pub is_space : ℕ → Bool
is_space c =
    (leb 9 c && leb c 13)
    || ((c == 32)
        || ((c == 0x85)
            || ((c == 0xa0)
                || ((c == 0x1680)
                    || ((leb 0x2000 c && leb c 0x200a)
                        || ((c == 0x2028)
                            || ((c == 0x2029)
                                || ((c == 0x202f) || ((c == 0x205f) || (c == 0x3000))))))))))

unfoldable pub trim_left : String → String
unfolding is_space
trim_left no_text = ""
trim_left (text_cons c s) =
    let rest = trim_left s in if is_space (code c) then rest else text_cons c s

unfoldable pub trim_right : String → String
unfolding is_space
trim_right no_text = ""
trim_right (text_cons c s) =
    let rest = trim_right s in if str_eq rest "" && is_space (code c) then "" else text_cons c rest

-- strings.TrimSpace.
unfoldable pub trim_space : String → String
unfolding trim_left trim_right
trim_space s = trim_right (trim_left s)

-- strings.HasPrefix.
unfoldable pub begins_with : String → String → Bool
begins_with no_text s = true
begins_with (text_cons c p) no_text = false
begins_with (text_cons c p) (text_cons d s) = (code c == code d) && begins_with p s

-- strings.Index, in characters; `none` is -1.
unfoldable pub index : String → String → Option ℕ
unfolding begins_with
index no_text sep = if begins_with sep "" then some 0 else none
index (text_cons c s) sep =
    let later = Option.map suc (index s sep) in
    if begins_with sep (text_cons c s) then some 0 else later

-- s[:n] and s[n:].
unfoldable pub take_text : ℕ → String → String
take_text zero s = ""
take_text (suc n) no_text = ""
take_text (suc n) (text_cons c s) = text_cons c (take_text n s)

unfoldable pub drop_text : ℕ → String → String
drop_text zero s = s
drop_text (suc n) no_text = ""
drop_text (suc n) (text_cons c s) = drop_text n s

-- How many characters a text has.
unfoldable pub text_length : String → ℕ
text_length no_text = 0
text_length (text_cons c s) = suc (text_length s)

-- The loop of strings.Replace: what is to be passed over of a text that has been replaced is counted
-- down.
unfoldable pub replace_from : ℕ → String → String → String → String
unfolding begins_with text_length
replace_from skipped old new no_text = ""
replace_from (suc skipped) old new (text_cons c s) = replace_from skipped old new s
replace_from zero old new (text_cons c s) =
    let replaced = text_append new (replace_from (text_length old - 1) old new s) in
    let kept = text_cons c (replace_from zero old new s) in
    if begins_with old (text_cons c s) then replaced else kept

-- strings.Replace(s, old, new, -1) of an `old` that is not empty.
unfoldable pub replace : String → String → String → String
unfolding replace_from
replace s old new = replace_from 0 old new s

-- strings.ToUpper on the letters of ASCII. The others, which stay as they are here, have no upper
-- case letter that a resolution is written with.
unfoldable pub to_upper : String → String
to_upper no_text = ""
to_upper (text_cons c s) =
    text_cons
      (if leb 97 (code c) && leb (code c) 122
        then char_at "ABCDEFGHIJKLMNOPQRSTUVWXYZ" (code c - 97)
        else c)
      (to_upper s)

-- The digits of strconv.ParseUint(s, 10, bits), where `max` is the greatest value. An error is that
-- of the NumError.
unfoldable pub uint_from : ℕ → ℕ → List ℕ → Result ℕ
uint_from max n [] = ok n
uint_from max n (c ∷ cs) =
    let next = n * 10 + (c - 48) in
    let rest = uint_from max next cs in
    if not (leb 48 c && leb c 57)
    then err "invalid syntax"
    else if ltb max next
    then err "value out of range"
    else rest

unfoldable pub parse_uint : ℕ → List ℕ → Result ℕ
unfolding uint_from
parse_uint bits [] = err "invalid syntax"
parse_uint bits (c ∷ cs) = uint_from (2 ^ bits - 1) 0 (c ∷ cs)

-- The bounds of a signed integer.
unfoldable pub with_sign : ℕ → Bool → ℕ → Result ℤ
with_sign bits false n = if leb (2 ^ (bits - 1)) n then err "value out of range" else ok (pos n)
with_sign bits true n = if ltb (2 ^ (bits - 1)) n then err "value out of range" else ok (sub_ℕ 0 n)

-- A sign before the digits.
unfoldable pub signed_from : ℕ → List ℕ → Result ℤ
unfolding parse_uint with_sign
signed_from bits [] = err "invalid syntax"
signed_from bits (c ∷ cs) =
    if c == 45
    then parse_uint bits cs >>= with_sign bits true
    else if c == 43
    then parse_uint bits cs >>= with_sign bits false
    else parse_uint bits (c ∷ cs) >>= with_sign bits false

-- strconv.ParseInt(s, 10, bits), and Atoi with 64 bits.
unfoldable pub parse_int : ℕ → String → Result ℤ
unfolding codes signed_from
parse_int bits s = signed_from bits (codes s)

tests :
    (parse_int 32 "-2147483648" ≡ ok (negsuc 2_147_483_647))
    × (parse_int 32 "2147483648" ≡ err "value out of range")
    × (parse_int 32 "+7" ≡ ok (pos 7))
    × (parse_int 32 "7x" ≡ err "invalid syntax")
    × (replace "a%2Fb%2F" "%2F" "_" ≡ "a_b_")
    × (trim_space "  a b " ≡ "a b")
    × (to_upper "1h_z" ≡ "1H_Z")
    × (index "BTC/PXP" "/" ≡ some 3)
unfolding parse_int replace trim_space index to_upper
tests = (refl, refl, refl, refl, refl, refl, refl, refl)
