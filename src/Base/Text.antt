-- ===== src/Base/Text.antt =====
-- Texts, and Go's maps with text keys as association lists in the order of insertion.
use Prim.Native.Nat.{Ordering}
use Prim.Native.String.{String, compare}
use mathlib.Core.Path.{◌≡◌, refl}
use mathlib.Core.Logic.{◌↔◌}
use mathlib.Core.Bool.{Bool, true, false}
use mathlib.Core.Option.{Option, none, some}
use mathlib.Core.List.{List, [], ◌∷◌}
use native.Mathlib.Omega.{arith}
use text.Mathlib.Text.{◌==◌, find?}
use text.Mathlib.TextEquality.{eq_iff}
use psychic_funicular.Base.Tests.{if◌then◌else◌}
use psychic_funicular.Base.Lists.{any}

abbrev pub str_eq : String → String → Bool
str_eq s t = s == t

pub str_eq_iff : (s t : String) → (str_eq s t ≡ true) ↔ (s ≡ t)
str_eq_iff = eq_iff

-- `<` on strings compares bytes.
abbrev pub str_lt : String → String → Bool
str_lt s t = elim (compare s t) [ Ordering.lt ↦ true | _ ↦ false ]

-- strings.Contains
abbrev pub str_contains : String → String → Bool
str_contains s t = elim (find? s t) [ none ↦ false | some _ ↦ true ]

abbrev pub str_mem : String → List String → Bool
str_mem x ss = any (λ s. str_eq s x) ss

-- `m[key]`, `delete(m, key)` and `m[key] = value`.
module _ {ℓ} {V : Type ℓ} where
  unfoldable pub lookup : String → List (String × V) → Option V
  lookup key [] = none
  lookup key ((k, v) ∷ entries) = if str_eq k key then some v else lookup key entries

  unfoldable pub delete : String → List (String × V) → List (String × V)
  delete key [] = []
  delete key ((k, v) ∷ entries) =
      if str_eq k key then delete key entries else (k, v) ∷ delete key entries

  unfoldable pub insert : String → V → List (String × V) → List (String × V)
  insert key value [] = (key, value) ∷ []
  insert key value ((k, v) ∷ entries) =
      if str_eq k key then (key, value) ∷ entries else (k, v) ∷ insert key value entries

  pub lookup-delete :
      (key other : String) (entries : List (String × V))
      → lookup other (delete key entries)
        ≡ (if str_eq key other then none else lookup other entries)
  unfolding lookup delete
  lookup-delete key other [] = ground (arith, eq_iff key other)
  lookup-delete key other ((k, v) ∷ entries) =
      ground
        (arith, lookup-delete key other entries, eq_iff k other, eq_iff k key, eq_iff key other)

  pub lookup-insert :
      (key other : String) (value : V) (entries : List (String × V))
      → lookup other (insert key value entries)
        ≡ (if str_eq key other then some value else lookup other entries)
  unfolding lookup insert
  lookup-insert key other value [] = refl
  lookup-insert key other value ((k, v) ∷ entries) =
      ground (
        arith,
        lookup-insert key other value entries,
        eq_iff k other,
        eq_iff k key,
        eq_iff key other,
      )
