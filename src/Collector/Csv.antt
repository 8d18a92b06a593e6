-- ===== src/Collector/Csv.antt =====
-- The CSV lines of nvidia-smi are read back as the devices that they tell of.
use Prim.Native.String.{◌++◌ as text_append}
use psychic_funicular.Base.{
  ℕ, ◌*◌, ◌<◌, ◌≡◌, refl, ap, ◌∙◌, true, false, String, none, some, List, [], ◌∷◌, map, arith, All,
}
use psychic_funicular.Base.Int.{mod64, pos}
use psychic_funicular.Platform.{Platform}
use psychic_funicular.Notify.Watched.{DeviceStats}
use psychic_funicular.Format.{join, decimal}
use psychic_funicular.Strings.{is_empty, is_space, trim_space, split}
use psychic_funicular.Strings.Numbers.{parse_uint}
use psychic_funicular.Strings.Decimal.{
  all_digits, decimal_digits, decimal_not_empty, parse_uint-decimal,
}
use psychic_funicular.Collector.Rows.{starts_clean, ends_clean, lacks, trim_clean, split_next}
use psychic_funicular.Collector.Columns.{IsColumn, IsLine-join, columns_lem}
use psychic_funicular.Collector.Nvidia.{
  or_zero, uint_or_zero, mib, mib_to_bytes, float_or_zero, nvidia_device, nvidia_line, nvidia_lines,
  parse_nvidia_csv, add_some,
}

digits_start : (s : String) → is_empty s ≡ false → all_digits s ≡ true → starts_clean s ≡ true
unfolding starts_clean all_digits is_space
digits_start String.[] ne h = absurd (ground (arith, ne))
digits_start (String.◌∷◌ c s) ne h = ground (arith, h)

digits_end : (s : String) → is_empty s ≡ false → all_digits s ≡ true → ends_clean s ≡ true
unfolding ends_clean all_digits is_space
digits_end String.[] ne h = absurd (ground (arith, ne))
digits_end (String.◌∷◌ c String.[]) ne h = ground (arith, h)
digits_end (String.◌∷◌ c (String.◌∷◌ d s)) ne h =
    digits_end (String.◌∷◌ d s) refl (ground (arith, h))

digits_lack : (x : ℕ) (s : String) → x < 48 → all_digits s ≡ true → lacks x s ≡ true
unfolding lacks all_digits
digits_lack x String.[] lt h = refl
digits_lack x (String.◌∷◌ c s) lt h = ground (arith, h, lt, digits_lack x s lt (ground (arith, h)))

IsColumn-decimal : (n : ℕ) → IsColumn (decimal n)
IsColumn-decimal n = record {
  start_ok = digits_start (decimal n) (decimal_not_empty n) (decimal_digits n);
  end_ok = digits_end (decimal n) (decimal_not_empty n) (decimal_digits n);
  no_comma = digits_lack 44 (decimal n) (omega arith) (decimal_digits n);
  no_break = digits_lack 10 (decimal n) (omega arith) (decimal_digits n);
}

-- A device as nvidia-smi tells of it: the sizes are in MiB, and the other readings are texts.
pub record SmiRow : Type 0 where
  pub index : ℕ
  pub uuid : String
  pub name : String
  pub utilization : String
  pub total : ℕ
  pub used : ℕ
  pub temperature : String
  pub power : String

-- The numbers have their sizes, in bytes too, and the texts can stand in a column.
pub record IsRow (r : SmiRow) : Type 0 where
  pub index_ok : r.index < 4294967296
  pub total_ok : r.total * 1048576 < mod64
  pub used_ok : r.used * 1048576 < mod64
  pub uuid_ok : IsColumn r.uuid
  pub name_ok : IsColumn r.name
  pub utilization_ok : IsColumn r.utilization
  pub temperature_ok : IsColumn r.temperature
  pub power_ok : IsColumn r.power

abbrev tail_columns : SmiRow → List String
tail_columns r =
    r.uuid
    ∷ r.name
    ∷ r.utilization
    ∷ decimal r.total
    ∷ decimal r.used
    ∷ r.temperature
    ∷ r.power
    ∷ []

abbrev pub print_row : SmiRow → String
print_row r = join ", " (decimal r.index ∷ tail_columns r)

-- The output: a line for each device, each one ended by a line break.
abbrev pub print_rows : List SmiRow → String
print_rows [] = ""
print_rows (r ∷ rs) = text_append (print_row r) (String.◌∷◌ "\n" (print_rows rs))

All-columns : (r : SmiRow) → IsRow r → All IsColumn (decimal r.index ∷ tail_columns r)
All-columns r h = (
  IsColumn-decimal r.index,
  (
    h.uuid_ok,
    (
      h.name_ok,
      (
        h.utilization_ok,
        (IsColumn-decimal r.total, (IsColumn-decimal r.used, (h.temperature_ok, (h.power_ok, tt)))),
      ),
    ),
  ),
)

not_empty : (s : String) → starts_clean s ≡ true → is_empty s ≡ false
unfolding starts_clean
not_empty String.[] h = absurd (ground (arith, h))
not_empty (String.◌∷◌ c s) h = refl

uint-decimal : (n : ℕ) → n < mod64 → uint_or_zero (decimal n) ≡ n
unfolding uint_or_zero
uint-decimal n h =
    let c = IsColumn-decimal n in
    ap (λ s. or_zero (parse_uint s)) (trim_clean (decimal n) c.start_ok c.end_ok)
    ∙ ap or_zero (parse_uint-decimal n h)

mib-decimal : (n : ℕ) → n * 1048576 < mod64 → mib_to_bytes (decimal n) ≡ n * 1048576
unfolding mib_to_bytes
mib-decimal n h = ap mib (uint-decimal n (omega (arith, h))) ∙ omega (arith, h)

module _ (p : Platform) where
  -- A reading, 0 if it is no number.
  abbrev pub reading : String → p.Float
  reading s = elim (p.parse_float s) [ none ↦ p.float_of (pos 0) | some x ↦ x ]

  abbrev pub told_device : SmiRow → DeviceStats p
  told_device r = record {
    kind = "gpu";
    vendor = "nvidia";
    index = r.index;
    uuid = r.uuid;
    mem_total_bytes = r.total * 1048576;
    name = r.name;
    utilization = reading r.utilization;
    mem_used_bytes = r.used * 1048576;
    temperature_c = reading r.temperature;
    power_watts = reading r.power;
  }

  float_lem : (s : String) → IsColumn s → float_or_zero p s ≡ reading s
  unfolding float_or_zero
  float_lem s c = ap reading (trim_clean s c.start_ok c.end_ok)

  device_lem :
      (r : SmiRow)
      → IsRow r
      → nvidia_device p (decimal r.index ∷ tail_columns r) ≡ some (told_device r)
  unfolding nvidia_device
  device_lem r h =
      rw
        (
          uint-decimal r.index (omega (arith, h.index_ok)),
          mib-decimal r.total h.total_ok,
          mib-decimal r.used h.used_ok,
          float_lem r.utilization h.utilization_ok,
          float_lem r.temperature h.temperature_ok,
          float_lem r.power h.power_ok,
        )
        (ap (λ i. some (record (told_device r) { index = i })) (omega (arith, h.index_ok)))

  line_lem : (r : SmiRow) → IsRow r → nvidia_line p (print_row r) ≡ some (told_device r)
  unfolding nvidia_line
  line_lem r h =
      let line = IsLine-join (decimal r.index) (tail_columns r) (All-columns r h) in
      rw
        (
          trim_clean (print_row r) line.start_ok line.end_ok,
          not_empty (print_row r) line.start_ok,
          columns_lem (decimal r.index) (tail_columns r) (All-columns r h),
        )
        (device_lem r h)

  lines_lem :
      (rs : List SmiRow)
      → All IsRow rs
      → nvidia_lines p (split 10 (print_rows rs)) ≡ map told_device rs
  unfolding nvidia_lines nvidia_line split psychic_funicular.Strings.split_where
  lines_lem [] h = refl
  lines_lem (r ∷ rs) (h, k) =
      let line = IsLine-join (decimal r.index) (tail_columns r) (All-columns r h) in
      ap (nvidia_lines p) (split_next "\n" (print_row r) (print_rows rs) line.no_break)
      ∙ ap (λ d. add_some p d (nvidia_lines p (split 10 (print_rows rs)))) (line_lem r h)
      ∙ ap (λ ds. told_device r ∷ ds) (lines_lem rs k)

  -- For any devices whose numbers have their sizes and whose texts are not empty and have no blanks at
  -- their ends, commas or line breaks, the output of nvidia-smi, a CSV line for each device, is read back
  -- as these devices, in order, the sizes from MiB to bytes; a reading that is no number is 0.
  pub csv_read_back :
      (rows : List SmiRow)
      → All IsRow rows
      → parse_nvidia_csv p (print_rows rows) ≡ map told_device rows
  unfolding parse_nvidia_csv
  csv_read_back rows h = lines_lem rows h
