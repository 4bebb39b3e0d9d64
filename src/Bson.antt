-- ===== src/Bson.antt =====
-- The values that the Mongo driver sends and receives: a bson.M or bson.D is a document, a bson.A an
-- array.
use ohlcv.Base.{
  Bool, String, List, [], ◌∷◌, Option, none, some, ℤ, str_eq, Run, done, panic, if◌then◌else◌,
}

-- `D` is primitive.Decimal128 and `F` is float64.
mutual
  pub data Bson (D F : Type 0) : Type 0 where
    decimal : D → Bson D F
    double : F → Bson D F
    utf8 : String → Bson D F
    date : ℤ → Bson D F
    int32 : ℤ → Bson D F
    flag : Bool → Bson D F
    array : Items D F → Bson D F
    document : Fields D F → Bson D F

  pub data Items (D F : Type 0) : Type 0 where
    no_items : Items D F
    item : Bson D F → Items D F → Items D F

  pub data Fields (D F : Type 0) : Type 0 where
    no_fields : Fields D F
    field : String → Bson D F → Fields D F → Fields D F

module _ {D F : Type 0} where
  -- m[key]; `none` is the nil of a missing key.
  unfoldable pub value_at : String → Fields D F → Option (Bson D F)
  value_at key no_fields = none
  value_at key (field k v m) = if str_eq k key then some v else value_at key m

  -- `i.(T)`, which panics on another type.
  unfoldable pub as_decimal : Option (Bson D F) → Run D
  as_decimal (some (decimal d)) = done d
  as_decimal other = panic

  unfoldable pub as_text : Option (Bson D F) → Run String
  as_text (some (utf8 s)) = done s
  as_text other = panic

  unfoldable pub as_date : Option (Bson D F) → Run ℤ
  as_date (some (date t)) = done t
  as_date other = panic

  unfoldable pub as_int32 : Option (Bson D F) → Run ℤ
  as_int32 (some (int32 n)) = done n
  as_int32 other = panic

  -- A document of one key, and of several.
  abbrev pub one : String → Bson D F → Bson D F
  one key value = document (field key value no_fields)

  abbrev pub fields_of : List (String × Bson D F) → Fields D F
  fields_of [] = no_fields
  fields_of ((key, value) ∷ rest) = field key value (fields_of rest)

  abbrev pub items_of : List (Bson D F) → Items D F
  items_of [] = no_items
  items_of (value ∷ rest) = item value (items_of rest)

  abbrev pub doc : List (String × Bson D F) → Bson D F
  doc entries = document (fields_of entries)

  abbrev pub items : List (Bson D F) → Bson D F
  items values = array (items_of values)
