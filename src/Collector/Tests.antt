-- ===== src/Collector/Tests.antt =====
-- The theorems on the collectors at concrete outputs, and the table of `npu-smi info`.
use psychic_funicular.Base.{◌≡◌, refl, none, some, [], ◌∷◌, map, arith}
use psychic_funicular.Base.Int.{pos}
use psychic_funicular.Samples.{exact, clock}
use psychic_funicular.Notify.Watched.{Snapshot}
use psychic_funicular.Server.Agent.{heartbeat_handler, report_metrics}
use psychic_funicular.Collector.{resources_from_snapshot}
use psychic_funicular.Collector.Nvidia.{parse_nvidia_csv}
use psychic_funicular.Collector.Ascend.{parse_device_row}
use psychic_funicular.Collector.Rows.{starts_clean, ends_clean, lacks}
use psychic_funicular.Collector.Csv.{SmiRow, IsRow, print_rows, told_device, csv_read_back}
use psychic_funicular.Collector.Inventory.{heartbeat_as_report, answer_of}
use psychic_funicular.Server.Samples.{config, server}
use psychic_funicular.Store.Sqlite.{sqlite}

abbrev row : SmiRow
row = record {
  index = 1;
  uuid = "GPU-1a";
  name = "NVIDIA A100";
  utilization = "37";
  total = 40960;
  used = 1234;
  temperature = "45";
  power = "[N/A]";
}

row-IsRow : IsRow row
unfolding starts_clean ends_clean lacks
row-IsRow = record {
  index_ok = omega arith;
  total_ok = omega arith;
  used_ok = omega arith;
  uuid_ok = record { start_ok = refl; end_ok = refl; no_comma = refl; no_break = refl };
  name_ok = record { start_ok = refl; end_ok = refl; no_comma = refl; no_break = refl };
  utilization_ok = record { start_ok = refl; end_ok = refl; no_comma = refl; no_break = refl };
  temperature_ok = record { start_ok = refl; end_ok = refl; no_comma = refl; no_break = refl };
  power_ok = record { start_ok = refl; end_ok = refl; no_comma = refl; no_break = refl };
}

csv_read_back_example :
    parse_nvidia_csv exact (print_rows (row ∷ row ∷ [])) ≡ map (told_device exact) (row ∷ row ∷ [])
csv_read_back_example = csv_read_back exact (row ∷ row ∷ []) (row-IsRow, (row-IsRow, tt))

-- The memory of the device is in the second group.
training_card : parse_device_row exact "0   0 / 0   53202/ 65536" ≡ (pos 0, 53202, 65536)
unfolding parse_device_row psychic_funicular.Strings.Numbers.parse_uint
training_card = refl

abbrev snapshot : Snapshot exact
snapshot = record {
  timestamp_unix = pos 100;
  cpu = none;
  mem =
      some
        (record { total_bytes = 64; used_bytes = 1; available_bytes = 63; used_percent = pos 2 });
  disks = [];
  devices = told_device exact row ∷ [];
}

heartbeat_as_report_example :
    ((heartbeat_handler exact sqlite config "n1"
        (some (resources_from_snapshot exact snapshot))
        clock
        server).1.engine
      ≡ (report_metrics exact sqlite config "n1" (some snapshot) clock server).1.engine)
    × (answer_of
          (heartbeat_handler exact sqlite config "n1"
            (some (resources_from_snapshot exact snapshot))
            clock
            server).0
        ≡ answer_of (report_metrics exact sqlite config "n1" (some snapshot) clock server).0)
heartbeat_as_report_example = heartbeat_as_report exact sqlite config "n1" snapshot clock server
