-- ===== src/Collector/Nvidia.antt =====
-- nvidia.go: the CSV lines of nvidia-smi, and the numbers in them.
use psychic_funicular.Base.{
  ℕ, ◌*◌, ◌%◌, String, Option, none, some, List, [], ◌∷◌, map, if◌then◌else◌,
}
use psychic_funicular.Base.Int.{mod64, pos}
use psychic_funicular.Platform.{Platform}
use psychic_funicular.Notify.Watched.{DeviceStats}
use psychic_funicular.Strings.{is_empty, trim_space, split}
use psychic_funicular.Strings.Numbers.{parse_uint}

abbrev pub or_zero : Option ℕ → ℕ
or_zero none = 0
or_zero (some n) = n

-- `parseUint`
unfoldable pub uint_or_zero : String → ℕ
unfolding parse_uint trim_space
uint_or_zero s = or_zero (parse_uint (trim_space s))

-- uint32(n)
abbrev pub low32 : ℕ → ℕ
low32 n = n % 4294967296

abbrev pub mib : ℕ → ℕ
mib n = (n * 1048576) % mod64

unfoldable pub mib_to_bytes : String → ℕ
unfolding uint_or_zero
mib_to_bytes s = mib (uint_or_zero s)

module _ (p : Platform) where
  open p use {Float, float_of, parse_float}

  -- `parseFloat`
  unfoldable pub float_or_zero : String → Float
  unfolding trim_space
  float_or_zero s = elim (parse_float (trim_space s)) [ none ↦ float_of (pos 0) | some x ↦ x ]

  -- The device of a line, from its trimmed columns; a line with fewer than eight has none.
  unfoldable pub nvidia_device : List String → Option (DeviceStats p)
  unfolding uint_or_zero mib_to_bytes float_or_zero
  nvidia_device (index ∷ uuid ∷ name ∷ used ∷ total ∷ in_use ∷ temperature ∷ power ∷ rest) =
      some (record {
        kind = "gpu";
        vendor = "nvidia";
        index = low32 (uint_or_zero index);
        uuid = uuid;
        mem_total_bytes = mib_to_bytes total;
        name = name;
        utilization = float_or_zero used;
        mem_used_bytes = mib_to_bytes in_use;
        temperature_c = float_or_zero temperature;
        power_watts = float_or_zero power;
      })
  nvidia_device _ = none

  abbrev pub add_some {ℓ} : {A : Type ℓ} → Option A → List A → List A
  add_some none xs = xs
  add_some (some x) xs = x ∷ xs

  -- A line that is blank has no device.
  unfoldable pub nvidia_line : String → Option (DeviceStats p)
  unfolding nvidia_device trim_space split
  nvidia_line line =
      let trimmed = trim_space line in
      if is_empty trimmed then none else nvidia_device (map trim_space (split b',' trimmed))

  unfoldable pub nvidia_lines : List String → List (DeviceStats p)
  unfolding nvidia_line
  nvidia_lines [] = []
  nvidia_lines (line ∷ lines) = add_some (nvidia_line line) (nvidia_lines lines)

  unfoldable pub parse_nvidia_csv : String → List (DeviceStats p)
  unfolding nvidia_lines split
  parse_nvidia_csv s = nvidia_lines (split 10 s)
