-- ===== src/Base/Maps.antt =====
-- A Go map with text keys, as an association list: `lookup` is `m[k]`, `insert` is `m[k] = v`.
use Prim.Native.String.{String}
use mathlib.Core.Path.{◌≡◌, refl}
use mathlib.Core.Option.{Option, none, some}
use mathlib.Core.List.{List, [], ◌∷◌}
use native.Mathlib.Omega.{arith}
use text.Mathlib.Text.{◌==◌ as str_eq}
use text.Mathlib.TextEquality.{eq_iff}
use ohlcv.Base.Tests.{if◌then◌else◌}

abbrev pub Assoc {ℓ} : Type ℓ → Type ℓ
Assoc A = List (String × A)

module _ {ℓ} {A : Type ℓ} where
  -- `m[k]`, where `none` is a missing key.
  unfoldable pub lookup : String → Assoc A → Option A
  lookup wanted [] = none
  lookup wanted ((key, a) ∷ rest) = if str_eq key wanted then some a else lookup wanted rest

  -- `m[k] = a`: in the key's place, or at the end.
  unfoldable pub insert : String → A → Assoc A → Assoc A
  insert new a [] = (new, a) ∷ []
  insert new a ((key, b) ∷ rest) =
      if str_eq key new then (new, a) ∷ rest else (key, b) ∷ insert new a rest

  -- `delete(m, k)`
  unfoldable pub remove : String → Assoc A → Assoc A
  remove gone [] = []
  remove gone (entry ∷ rest) =
      let others = remove gone rest in if str_eq entry.0 gone then others else entry ∷ others

  pub lookup-empty : (wanted : String) → lookup wanted [] ≡ none
  unfolding lookup
  lookup-empty wanted = refl

  -- A write is read at its own key, and nowhere else.
  pub lookup-insert :
      (new wanted : String) (a : A) (entries : Assoc A)
      → lookup wanted (insert new a entries)
        ≡ (if str_eq new wanted then some a else lookup wanted entries)
  unfolding insert lookup
  lookup-insert new wanted a [] = refl
  lookup-insert new wanted a ((key, b) ∷ rest) =
      let later = lookup-insert new wanted a rest in
      ground (arith, later, eq_iff key wanted, eq_iff new wanted, eq_iff key new)

  pub lookup-remove :
      (gone wanted : String) (entries : Assoc A)
      → lookup wanted (remove gone entries)
        ≡ (if str_eq gone wanted then none else lookup wanted entries)
  unfolding remove lookup
  lookup-remove gone wanted [] = ground arith
  lookup-remove gone wanted ((key, b) ∷ rest) =
      let later = lookup-remove gone wanted rest in
      ground (later, arith, eq_iff key gone, eq_iff key wanted, eq_iff gone wanted)

pub ruleset map_laws = (lookup-empty, lookup-insert, lookup-remove)
