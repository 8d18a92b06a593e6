-- ===== src/Platform.antt =====
-- What the code takes from the machine and from Unicode: 64-bit floats with their
-- printed form, the text of durations and of quoted strings, strings.ToLower and strings.ToUpper.
-- All of these are parameters of the model.
use psychic_funicular.Base.{ℕ, Bool, String, Option}
use psychic_funicular.Base.Int.{ℤ}

pub record Platform : Type 1 where
  pub Float : Type 0
  pub float_of : ℤ → Float
  pub float_add : Float → Float → Float
  pub float_mul : Float → Float → Float
  pub float_lt : Float → Float → Bool
  pub float_le : Float → Float → Bool
  pub float_eq : Float → Float → Bool
  -- Duration.Minutes
  pub minutes : ℤ → Float
  -- fmt: `%.0f` of a float, and `%s` of a duration
  pub format_whole : Float → String
  pub format_duration : ℤ → String
  pub to_lower : String → String
  -- %q of a string
  pub quote : String → String
  pub to_upper : String → String
  -- strconv.ParseFloat and time.ParseDuration, and the texts of their errors
  pub parse_float : String → Option Float
  pub float_error : String → String
  pub parse_duration : String → Option ℤ
  pub duration_error : String → String
  -- uint64(f), int64(d.Seconds()), and float64 division
  pub to_u64 : Float → ℕ
  pub whole_seconds : ℤ → ℤ
  pub float_div : Float → Float → Float
  -- fmt: `%.1f` and `%.2f`, and time.Unix(t, 0).Format("15:04:05")
  pub format_tenth : Float → String
  pub format_hundredth : Float → String
  pub format_clock : ℤ → String
  -- a constant of the source, by its text
  pub literal : String → Float
