-- ===== src/Skctl/Text.antt =====
-- The texts in the tables of skctl: sizes, ages, counts, and what stands for nothing.
use psychic_funicular.Base.{
  ℕ, zero, suc, ◌+◌, ◌*◌, ◌/◌, ◌%◌, String, Option, none, some, List, [], ◌∷◌, if◌then◌else◌, ltb,
  leb, str_eq, get_elem?,
}
use psychic_funicular.Base.Int.{ℤ, pos, negsuc, leb_ℤ, ltb_ℤ, ◌-ℤ◌, mod64, mul64}
use psychic_funicular.Platform.{Platform}
use psychic_funicular.Time.{nanos}
use psychic_funicular.Format.{concat, decimal}
use psychic_funicular.Server.Convert.{JobMessage}

-- The letters of "KMGTPE".
abbrev pub letters : List String
letters = "K" ∷ "M" ∷ "G" ∷ "T" ∷ "P" ∷ "E" ∷ []

-- The loop of `humanBytes`: the divisor and the exponent. Six rounds are enough for 64 bits.
unfoldable pub scale : ℕ → ℕ → ℕ → ℕ → ℕ × ℕ
scale zero n div exp = (div, exp)
scale (suc fuel) n div exp =
    let rest = scale fuel (n / 1024) ((div * 1024) % mod64) (suc exp) in
    if leb 1024 n then rest else (div, exp)

module _ (p : Platform) where
  -- An index behind the last letter would end the program; there is no text then.
  unfoldable pub scaled_text : ℕ → ℕ × ℕ → Option String
  scaled_text b (div, exp) =
      let size = p.format_tenth (p.float_div (p.float_of (pos b)) (p.float_of (pos div))) in
      elim (get_elem? letters exp) [
        | none ↦ none
        | some letter ↦ some (concat (size ∷ letter ∷ "iB" ∷ []))
      ]

  unfoldable pub human_bytes : ℕ → Option String
  unfolding scale scaled_text
  human_bytes b =
      if ltb b 1024
      then some (concat (decimal b ∷ "B" ∷ []))
      else scaled_text b (scale 6 (b / 1024) 1024 0)

  -- Duration.Round(time.Second), halves away from zero, and its text.
  abbrev pub rounded : ℕ → ℕ
  rounded n = (n + nanos / 2) / nanos * nanos

  abbrev pub round_second : ℤ → ℤ
  round_second (pos n) = pos (rounded n)
  round_second (negsuc n) = pos 0 -ℤ pos (rounded (suc n))

  -- `now` and the start of the epoch are in nanoseconds, as time.Since(time.Unix(t, 0)) is.
  unfoldable pub heartbeat_age : ℤ → ℤ → String
  heartbeat_age now unix =
      if leb_ℤ unix (pos 0)
      then "-"
      else let d = round_second (now -ℤ mul64 unix nanos) in
        concat (p.format_duration (if ltb_ℤ d (pos 0) then pos 0 else d) ∷ " ago" ∷ [])

  unfoldable pub runtime_of : ℤ → JobMessage → String
  runtime_of now j =
      let start = j.start_at_unix in
      let end = j.end_at_unix in
      if leb_ℤ start (pos 0)
      then "-"
      else p.format_duration (
          round_second
            (if ltb_ℤ (pos 0) end then mul64 (end -ℤ start) nanos else now -ℤ mul64 start nanos))

  unfoldable pub ts_short : ℤ → String
  ts_short unix = if leb_ℤ unix (pos 0) then "-" else p.format_clock unix

abbrev pub dash : String → String
dash s = if str_eq s "" then "-" else s

-- The first eight characters; ids are hexadecimal, so these are its first eight bytes.
abbrev pub first_chars : ℕ → String → String
first_chars zero s = ""
first_chars (suc n) String.[] = ""
first_chars (suc n) (String.◌∷◌ c s) = String.◌∷◌ c (first_chars n s)

abbrev pub short_id : String → String
short_id id = first_chars 8 id

-- How many devices are of the kinds "gpu" and "npu".
unfoldable pub count_kinds : List String → ℕ × ℕ
count_kinds [] = (0, 0)
count_kinds (kind ∷ kinds) =
    let (gpu, npu) = count_kinds kinds in
    if str_eq kind "gpu"
    then (suc gpu, npu)
    else if str_eq kind "npu"
    then (gpu, suc npu)
    else (gpu, npu)

-- `user.Current` gives a name or an error, which is none here; `home` is the variable USER.
unfoldable pub owner_or_current : Option String → String → String → String
owner_or_current current user o = if str_eq o "" then or_user current else o
  where
    user_or : String → String
    user_or v = if str_eq v "" then "anonymous" else v

    or_user : Option String → String
    or_user none = user_or user
    or_user (some name) = if str_eq name "" then user_or user else name

-- `envOr`, on the value of the variable.
abbrev pub env_or : String → String → String
env_or v default = if str_eq v "" then default else v
