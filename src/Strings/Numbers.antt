-- ===== src/Strings/Numbers.antt =====
-- strconv.ParseUint and strconv.Atoi at base 10 and 64 bits.
use Prim.Native.Char.{code}
use psychic_funicular.Base.{
  ℕ, ◌+◌, ◌-◌, ◌*◌, ◌&&◌, String, Option, none, some, if◌then◌else◌, ltb, leb, ◌==◌,
}
use psychic_funicular.Base.Int.{mod64, half64}

-- The value of digits, behind a value that is read.
unfoldable pub digits_value : ℕ → String → Option ℕ
digits_value acc String.[] = some acc
digits_value acc (String.◌∷◌ c s) =
    let rest = digits_value (acc * 10 + (code c - b'0')) s in
    if leb b'0' (code c) && leb (code c) b'9' then rest else none

abbrev pub below : ℕ → Option ℕ → Option ℕ
below bound none = none
below bound (some n) = if ltb n bound then some n else none

-- A number below a bound; the text is not empty.
unfoldable pub number_below : ℕ → String → Option ℕ
unfolding digits_value
number_below bound String.[] = none
number_below bound (String.◌∷◌ c s) = below bound (digits_value 0 (String.◌∷◌ c s))

-- strconv.ParseUint(s, 10, 64)
unfoldable pub parse_uint : String → Option ℕ
unfolding number_below
parse_uint s = number_below mod64 s

-- strconv.Atoi, where it gives a number that is not negative.
unfoldable pub parse_natural : String → Option ℕ
unfolding number_below
parse_natural String.[] = none
parse_natural (String.◌∷◌ c s) =
    let rest = number_below half64 s in
    if code c == b'+' then rest else number_below half64 (String.◌∷◌ c s)
