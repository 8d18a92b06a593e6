-- ===== src/Web/Sizes.antt =====
-- The texts of sizes, times and limits in webserver.go, and the sizes of cmd/skctl/main.go.
use psychic_funicular.Base.{ℕ, ◌||◌, String, none, some, if◌then◌else◌, ltb, str_eq}
use psychic_funicular.Base.Int.{ℤ, pos, ltb_ℤ}
use psychic_funicular.Platform.{Platform}
use psychic_funicular.Store.Api.{Result, ok, err}
use psychic_funicular.Strings.{trim_space, has_suffix, trim_suffix}
use psychic_funicular.Strings.Numbers.{parse_natural}

-- `queryInt`; a parameter that is not there is empty.
unfoldable pub query_int : String → ℕ → ℕ
unfolding parse_natural
query_int v default =
    if str_eq v ""
    then default
    else elim (parse_natural v) [ none ↦ default | some n ↦ if ltb 0 n then n else default ]

-- The factor of the unit at the end of a text, and the text before it.
unfoldable pub unit_of : String → ℕ × String
unfolding has_suffix trim_suffix
unit_of s =
    if has_suffix b'K' s
    then (1024, trim_suffix b'K' s)
    else if has_suffix b'M' s
    then (1048576, trim_suffix b'M' s)
    else if has_suffix b'G' s
    then (1073741824, trim_suffix b'G' s)
    else if has_suffix b'T' s
    then (1099511627776, trim_suffix b'T' s)
    else (1, s)

module _ (p : Platform) where
  open p use {
    Float, float_of, float_mul, float_lt, to_upper, parse_float, float_error, to_u64,
    parse_duration, duration_error, whole_seconds,
  }

  -- The number and the unit of a size that is not empty.
  abbrev pub sized : String → ℕ × String
  unfolding unit_of trim_suffix trim_space
  sized s = unit_of (trim_suffix b'I' (trim_suffix b'B' (to_upper s)))

  abbrev pub scaled : ℕ → Float → ℕ
  scaled factor n = to_u64 (float_mul n (float_of (pos factor)))

  -- `parseSize` of webserver.go
  unfoldable pub parse_size : String → Result ℕ
  unfolding sized trim_space
  parse_size text =
      let s = trim_space text in
      let (factor, number) = sized s in
      if str_eq s "" || str_eq s "0" then ok 0 else elim (parse_float (trim_space number)) [
        | none ↦ err (float_error (trim_space number))
        | some n ↦
            if float_lt n (float_of (pos 0)) then err "negative size" else ok (scaled factor n)
      ]

  -- `parseSize` of cmd/skctl/main.go
  unfoldable pub cli_parse_size : String → Result ℕ
  unfolding sized trim_space
  cli_parse_size text =
      let s = trim_space text in
      let (factor, number) = sized s in
      if str_eq s "" || str_eq s "0" then ok 0 else elim (parse_float (trim_space number)) [
        | none ↦ err (float_error (trim_space number))
        | some n ↦ ok (scaled factor n)
      ]

  unfoldable pub parse_walltime : String → Result ℤ
  unfolding trim_space
  parse_walltime text =
      let s = trim_space text in
      if str_eq s "" || str_eq s "0" then ok (pos 0) else elim (parse_duration s) [
        | none ↦ err (duration_error s)
        | some d ↦ if ltb_ℤ d (pos 0) then err "negative duration" else ok (whole_seconds d)
      ]
