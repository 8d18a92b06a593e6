-- ===== src/Collector/Ascend.antt =====
-- ascend.go: the table of `npu-smi info`. A device takes two rows, of which the first one names it.
use psychic_funicular.Base.{
  ℕ, Bool, String, Option, none, some, List, [], ◌∷◌, map, any, if◌then◌else◌, leb, str_eq,
  str_contains,
}
use text.Mathlib.Text.{starts_with}
use psychic_funicular.Base.Int.{pos}
use psychic_funicular.Platform.{Platform}
use psychic_funicular.Format.{join}
use psychic_funicular.Notify.Watched.{DeviceStats}
use psychic_funicular.Strings.{trim_space, split, fields, non_empty, replace}
use psychic_funicular.Collector.Nvidia.{uint_or_zero, float_or_zero, low32, mib}

unfoldable pub split_cells : String → List String
unfolding split trim_space
split_cells line = non_empty (map trim_space (split b'|' line))

-- The largest group so far, used and total.
abbrev pub larger : ℕ × ℕ → ℕ × ℕ → ℕ × ℕ
larger best (used, total) = if leb best.1 total then (used, total) else best

-- A text between two others that is a slash makes a group of them; the first and the last text do not.
unfoldable pub groups_loop : ℕ × ℕ → List String → ℕ × ℕ
unfolding uint_or_zero
groups_loop best (a ∷ f ∷ b ∷ rest) =
    let next = larger best (uint_or_zero a, uint_or_zero b) in
    groups_loop (if str_eq f "/" then next else best) (f ∷ b ∷ rest)
groups_loop best _ = best

module _ (p : Platform) where
  open p use {Float, float_of, to_lower}

  unfoldable pub is_header_cell : List String → Bool
  is_header_cell cells =
      let joined = to_lower (join " " cells) in
      any (str_contains joined)
        ("name" ∷ "health" ∷ "aicore" ∷ "bus-id" ∷ "process" ∷ "npu-smi" ∷ [])

  unfoldable pub device_row_of : List String → Float × ℕ × ℕ
  unfolding groups_loop float_or_zero
  device_row_of [] = (float_of (pos 0), 0, 0)
  device_row_of (f ∷ fs) =
      let (used, total) = groups_loop (0, 0) (f ∷ fs) in (float_or_zero p f, used, total)

  -- The utilization, and the used and total size in MB of the largest memory of the row.
  unfoldable pub parse_device_row : String → Float × ℕ × ℕ
  unfolding device_row_of fields replace
  parse_device_row cell = device_row_of (fields (replace b'/' " / " cell))

  pub record NpuRow : Type 0 where
    pub index : ℕ
    pub name : String
    pub power : Float
    pub temp : Float

  abbrev pub npu_device : NpuRow → Float × ℕ × ℕ → DeviceStats p
  npu_device row (util, used, total) = record {
    kind = "npu";
    vendor = "ascend";
    index = row.index;
    uuid = "";
    mem_total_bytes = mib total;
    name = row.name;
    utilization = util;
    mem_used_bytes = mib used;
    temperature_c = row.temp;
    power_watts = row.power;
  }

  -- The row that names a device: its number and name, and its power and temperature.
  unfoldable pub name_row_of : List String → List String → Option NpuRow
  unfolding uint_or_zero float_or_zero
  name_row_of (index ∷ name ∷ _) (power ∷ temp ∷ _) = some (record {
    index = low32 (uint_or_zero index);
    name = name;
    power = float_or_zero p power;
    temp = float_or_zero p temp;
  })
  name_row_of _ _ = none

  -- What a line of the table is: nothing that is read, a row of a device, or a row that names one.
  pub data Line : Type 0 where
    other : Line
    device_row : Float × ℕ × ℕ → Line
    name_row : NpuRow → Line

  abbrev pub named : Option NpuRow → Line
  named none = other
  named (some row) = name_row row

  unfoldable pub line_of : List String → Line
  unfolding is_header_cell parse_device_row name_row_of fields
  line_of (a ∷ b ∷ c ∷ rest) =
      if is_header_cell (a ∷ b ∷ c ∷ rest)
      then other
      else if str_contains b ":"
      then device_row (parse_device_row c)
      else named (name_row_of (fields a) (fields c))
  line_of _ = other

  unfoldable pub read_npu_line : String → Line
  unfolding line_of split_cells trim_space
  read_npu_line line =
      if starts_with (trim_space line) "|" then line_of (split_cells line) else other

  -- A row of a device without a row that names it is left out.
  unfoldable pub npu_loop : Option NpuRow → List Line → List (DeviceStats p)
  npu_loop pending [] = []
  npu_loop pending (other ∷ lines) = npu_loop pending lines
  npu_loop pending (name_row row ∷ lines) = npu_loop (some row) lines
  npu_loop none (device_row r ∷ lines) = npu_loop none lines
  npu_loop (some row) (device_row r ∷ lines) = npu_device row r ∷ npu_loop none lines

  unfoldable pub parse_npu_smi : String → List (DeviceStats p)
  unfolding npu_loop read_npu_line split
  parse_npu_smi s = npu_loop none (map read_npu_line (split 10 s))
