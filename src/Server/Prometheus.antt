-- ===== src/Server/Prometheus.antt =====
-- prometheus.go: the samples that a scrape collects, in the order in which they are sent.
use psychic_funicular.Base.{String, Option, none, some, List, [], ◌∷◌, ◌++◌, if◌then◌else◌}
use psychic_funicular.Base.Int.{pos}
use psychic_funicular.Platform.{Platform}
use psychic_funicular.Model.{Node, is_up}
use psychic_funicular.Store.Api.{Store, ok, err}
use psychic_funicular.Format.{decimal}
use psychic_funicular.Notify.Engine.{Config}
use psychic_funicular.Notify.Watched.{
  CpuStats, MemStats, DiskStats, DeviceStats, Snapshot, Metrics, get,
}
use psychic_funicular.Server.State.{Server}

module _ (p : Platform) where
  open p use {Float, float_of}

  -- A gauge: the name of its description, its value, and the values of its labels.
  pub record Sample : Type 0 where
    pub name : String
    pub value : Float
    pub labels : List String

  abbrev pub sample : String → Float → List String → Sample
  sample name value labels = record { name = name; value = value; labels = labels }

  unfoldable pub cpu_samples : Node → Option (CpuStats p) → List Sample
  cpu_samples n none = []
  cpu_samples n (some cpu) =
      sample "skipper_node_cpu_utilization" cpu.utilization (n.name ∷ [])
      ∷ sample "skipper_node_load1" cpu.load1 (n.name ∷ [])
      ∷ []

  unfoldable pub mem_samples : Node → Option (MemStats p) → List Sample
  mem_samples n none = []
  mem_samples n (some m) =
      sample "skipper_node_mem_total_bytes" (float_of (pos m.total_bytes)) (n.name ∷ [])
      ∷ sample "skipper_node_mem_used_bytes" (float_of (pos m.used_bytes)) (n.name ∷ [])
      ∷ []

  unfoldable pub disk_samples : Node → List (DiskStats p) → List Sample
  disk_samples n [] = []
  disk_samples n (d ∷ ds) =
      sample "skipper_disk_total_bytes" (float_of (pos d.total_bytes)) (n.name ∷ d.mount ∷ [])
      ∷ sample "skipper_disk_used_bytes" (float_of (pos d.used_bytes)) (n.name ∷ d.mount ∷ [])
      ∷ sample "skipper_disk_used_percent" d.used_percent (n.name ∷ d.mount ∷ [])
      ∷ disk_samples n ds

  unfoldable pub device_samples : Node → List (DeviceStats p) → List Sample
  device_samples n [] = []
  device_samples n (d ∷ ds) =
      let lv = n.name ∷ d.kind ∷ d.vendor ∷ decimal d.index ∷ d.uuid ∷ d.name ∷ [] in
      sample "skipper_device_utilization" d.utilization lv
      ∷ sample "skipper_device_mem_total_bytes" (float_of (pos d.mem_total_bytes)) lv
      ∷ sample "skipper_device_mem_used_bytes" (float_of (pos d.mem_used_bytes)) lv
      ∷ sample "skipper_device_temperature_celsius" d.temperature_c lv
      ∷ sample "skipper_device_power_watts" d.power_watts lv
      ∷ device_samples n ds

  unfoldable pub snapshot_samples : Node → Option (Option (Snapshot p)) → List Sample
  unfolding cpu_samples mem_samples disk_samples device_samples
  snapshot_samples n (some (some snap)) =
      cpu_samples n snap.cpu
      ++ mem_samples n snap.mem
      ++ disk_samples n snap.disks
      ++ device_samples n snap.devices
  snapshot_samples n _ = []

  unfoldable pub collect_nodes : Metrics p → List Node → List Sample
  unfolding snapshot_samples get
  collect_nodes metrics [] = []
  collect_nodes metrics (n ∷ ns) =
      let up = if is_up n.state then float_of (pos 1) else float_of (pos 0) in
      sample "skipper_node_up" up (n.name ∷ [])
      ∷ (snapshot_samples n (get p n.id metrics) ++ collect_nodes metrics ns)

  unfoldable pub collect : (s : Store) (cfg : Config) → Server p s cfg → List Sample
  unfolding collect_nodes
  collect s cfg w = elim (s.list_nodes w.engine.store) [
    | err e ↦ []
    | ok nodes ↦ collect_nodes w.metrics nodes
  ]
