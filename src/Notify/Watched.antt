-- ===== src/Notify/Watched.antt =====
-- What a detector reads and remembers, the store of the latest snapshots (internal/metrics/store.go), and
-- the events of detector.go.
use psychic_funicular.Base.{
  ℕ, Bool, true, false, ◌&&◌, String, Option, none, some, List, [], ◌∷◌, any, if◌then◌else◌, ◌==◌,
  str_eq, lookup, insert, delete,
}
use psychic_funicular.Base.Int.{ℤ, pos}
use psychic_funicular.Platform.{Platform}
use psychic_funicular.Time.{Time, Duration, zero_time}
use psychic_funicular.Model.{Node, Job, AllocDevice, Event}
use psychic_funicular.Format.{concat, decimal}

module _ (p : Platform) where
  open p use {Float, float_of, float_mul, float_le, format_whole, format_duration}

  -- The messages of a snapshot (gen/skipper/v1), as far as they are read.
  pub record CpuStats : Type 0 where
    pub utilization : Float
    pub load1 : Float
    pub load5 : Float
    pub load15 : Float
    pub cores : ℕ  -- uint32

  pub record MemStats : Type 0 where
    pub total_bytes : ℕ  -- uint64
    pub used_bytes : ℕ  -- uint64
    pub available_bytes : ℕ  -- uint64
    pub used_percent : Float

  pub record DiskStats : Type 0 where
    pub mount : String
    pub fstype : String
    pub total_bytes : ℕ  -- uint64
    pub used_bytes : ℕ  -- uint64
    pub used_percent : Float
    pub inodes_used_percent : Float

  pub record DeviceStats : Type 0 where
    pub kind : String
    pub vendor : String
    pub index : ℕ  -- uint32
    pub uuid : String
    pub mem_total_bytes : ℕ  -- uint64
    pub name : String
    pub utilization : Float
    pub mem_used_bytes : ℕ  -- uint64
    pub temperature_c : Float
    pub power_watts : Float

  pub record Snapshot : Type 0 where
    pub timestamp_unix : ℤ
    pub cpu : Option CpuStats
    pub mem : Option MemStats
    pub disks : List DiskStats
    pub devices : List DeviceStats

  -- metrics.Store, by node id. A pointer to a snapshot may be nil.
  abbrev pub Metrics : Type 0
  Metrics = List (String × Option Snapshot)

  unfoldable pub put : String → Option Snapshot → Metrics → Metrics
  unfolding insert
  put node_id snap m = insert node_id snap m

  unfoldable pub get : String → Metrics → Option (Option Snapshot)
  unfolding lookup
  get node_id m = lookup node_id m

  unfoldable pub remove : String → Metrics → Metrics
  unfolding delete
  remove node_id m = delete node_id m

  pub record DetectorConfig : Type 0 where
    pub disk_threshold : Float
    pub device_idle_util : Float
    pub device_idle_duration : Duration

  -- The maps of a detector: the disks over the threshold, and since when a device is idle.
  pub record Watch : Type 0 where
    pub disk_full : List (String × Bool)
    pub idle_since : List (String × Time)

  abbrev pub bare_event :
      String → String → String → String → String → List (String × String) → Event
  bare_event kind severity source summary key labels = record {
    id = "";
    kind = kind;
    severity = severity;
    source = source;
    summary = summary;
    dedup_key = key;
    labels = labels;
    time = zero_time;
  }

  abbrev pub disk_key : Node → DiskStats → String
  disk_key n disk = concat (n.name ∷ "|" ∷ disk.mount ∷ [])

  -- `d.diskFull[key]`, false for a key that is not there.
  unfoldable pub was_full : String → List (String × Bool) → Bool
  was_full key m = elim (lookup key m) [ some b ↦ b | none ↦ false ]

  abbrev pub full_event : Node → DiskStats → Event
  full_event n disk =
      bare_event "disk.full" "warning" n.name
        (concat (
          "节点 "
          ∷ n.name
          ∷ " 磁盘 "
          ∷ disk.mount
          ∷ " 使用率 "
          ∷ format_whole disk.used_percent
          ∷ "% 超过阈值"
          ∷ []))
        (disk_key n disk)
        (("node", n.name)
          ∷ ("mount", disk.mount)
          ∷ ("used_pct", format_whole disk.used_percent)
          ∷ [])

  abbrev pub recovered_event : Node → DiskStats → Event
  recovered_event n disk =
      bare_event "disk.recovered" "info" n.name
        (concat (
          "节点 "
          ∷ n.name
          ∷ " 磁盘 "
          ∷ disk.mount
          ∷ " 使用率回落到 "
          ∷ format_whole disk.used_percent
          ∷ "%"
          ∷ []))
        (disk_key n disk) (("node", n.name) ∷ ("mount", disk.mount) ∷ [])

  abbrev pub percent_of : Float → Float
  percent_of f = float_mul f (float_of (pos 100))

  abbrev pub is_full : DetectorConfig → DiskStats → Bool
  is_full cfg disk = float_le (percent_of cfg.disk_threshold) disk.used_percent

  -- Does an active job on the node hold the device? Its owner then.
  abbrev pub holds : String → ℕ → Job → Bool
  holds kind index j =
      any (λ (dev : AllocDevice). str_eq dev.kind kind && (dev.index == index)) j.devices

  unfoldable pub allocation_of : String → String → ℕ → List Job → Bool × String
  allocation_of node_id kind index [] = (false, "")
  allocation_of node_id kind index (j ∷ js) =
      let rest = allocation_of node_id kind index js in
      if str_eq j.node_id node_id && holds kind index j then (true, j.owner) else rest

  abbrev pub device_key : Node → DeviceStats → String
  device_key n dev = concat (n.name ∷ "|" ∷ dev.kind ∷ "|" ∷ decimal dev.index ∷ [])

  abbrev pub idle_event : DetectorConfig → Node → DeviceStats → Bool × String → Event
  idle_event cfg n dev (true, owner) =
      bare_event "device.idle" "warning" n.name
        (concat (
          "节点 "
          ∷ n.name
          ∷ " 的 "
          ∷ dev.kind
          ∷ decimal dev.index
          ∷ " 已分配给 "
          ∷ owner
          ∷ " 但空置超过 "
          ∷ format_duration cfg.device_idle_duration
          ∷ "，请确认是否释放"
          ∷ []))
        (device_key n dev)
        (("node", n.name)
          ∷ ("kind", dev.kind)
          ∷ ("index", decimal dev.index)
          ∷ ("allocated", "true")
          ∷ ("owner", owner)
          ∷ [])
  idle_event cfg n dev (false, owner) =
      bare_event "device.idle" "warning" n.name
        (concat (
          "节点 "
          ∷ n.name
          ∷ " 的 "
          ∷ dev.kind
          ∷ decimal dev.index
          ∷ " 空闲超过 "
          ∷ format_duration cfg.device_idle_duration
          ∷ "（可用资源）"
          ∷ []))
        (device_key n dev)
        (("node", n.name)
          ∷ ("kind", dev.kind)
          ∷ ("index", decimal dev.index)
          ∷ ("allocated", "false")
          ∷ [])
