-- ===== src/Strings.antt =====
-- What the code uses of Go's package strings: texts are lists of characters, separators are single
-- characters.
pub mod Laws
pub mod Numbers
pub mod Decimal
use Prim.Native.Char.{code}
use Prim.Native.String.{◌++◌ as text_append}
use psychic_funicular.Base.{
  ℕ, Bool, true, false, not, ◌&&◌, ◌||◌, String, Option, none, some, List, [], ◌∷◌, if◌then◌else◌,
  leb, ◌==◌, keep,
}

abbrev pub is_empty : String → Bool
is_empty String.[] = true
is_empty (String.◌∷◌ c s) = false

-- unicode.IsSpace
unfoldable pub is_space : ℕ → Bool
is_space c =
    (leb 9 c && leb c 13)
    || (c == 32)
    || (c == 133)
    || (c == 160)
    || (c == 5760)
    || (leb 8192 c && leb c 8202)
    || (c == 8232)
    || (c == 8233)
    || (c == 8239)
    || (c == 8287)
    || (c == 12288)

unfoldable pub trim_left : String → String
unfolding is_space
trim_left String.[] = ""
trim_left (String.◌∷◌ c s) =
    let rest = trim_left s in if is_space (code c) then rest else String.◌∷◌ c s

unfoldable pub trim_right : String → String
unfolding is_space
trim_right String.[] = ""
trim_right (String.◌∷◌ c s) =
    let rest = trim_right s in if is_empty rest && is_space (code c) then "" else String.◌∷◌ c rest

-- strings.TrimSpace
unfoldable pub trim_space : String → String
unfolding trim_left trim_right
trim_space s = trim_right (trim_left s)

-- A character in front of the first of some texts.
abbrev pub onto_first : String → List String → List String
onto_first c [] = c ∷ []
onto_first c (s ∷ ss) = text_append c s ∷ ss

-- The texts between the characters of a kind.
unfoldable pub split_where : (ℕ → Bool) → String → List String
split_where sep String.[] = "" ∷ []
split_where sep (String.◌∷◌ c s) =
    let rest = split_where sep s in
    if sep (code c) then "" ∷ rest else onto_first (String.◌∷◌ c "") rest

-- strings.Split with a separator of one character
unfoldable pub split : ℕ → String → List String
unfolding split_where
split sep s = split_where (λ c. c == sep) s

abbrev pub non_empty : List String → List String
non_empty ss = keep (λ s. not (is_empty s)) ss

-- strings.Fields
unfoldable pub fields : String → List String
unfolding split_where is_space
fields s = non_empty (split_where is_space s)

-- strings.ReplaceAll of one character
unfoldable pub replace : ℕ → String → String → String
replace old new String.[] = ""
replace old new (String.◌∷◌ c s) =
    let rest = replace old new s in
    if code c == old then text_append new rest else String.◌∷◌ c rest

-- strings.HasSuffix and strings.TrimSuffix with one character
unfoldable pub has_suffix : ℕ → String → Bool
has_suffix x String.[] = false
has_suffix x (String.◌∷◌ c s) =
    let rest = has_suffix x s in if is_empty s then code c == x else rest

unfoldable pub trim_suffix : ℕ → String → String
trim_suffix x String.[] = ""
trim_suffix x (String.◌∷◌ c s) =
    let rest = trim_suffix x s in if is_empty s && (code c == x) then "" else String.◌∷◌ c rest

-- strings.Cut at one character
unfoldable pub cut : ℕ → String → Option (String × String)
cut x String.[] = none
cut x (String.◌∷◌ c s) =
    let rest = cut x s in
    if code c == x
    then some ("", s)
    else elim rest [ none ↦ none | some (a, b) ↦ some (String.◌∷◌ c a, b) ]
