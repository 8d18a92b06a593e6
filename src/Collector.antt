-- ===== src/Collector.antt =====
-- internal/collector: the snapshot that an agent takes of its node, and what it registers of it. `Nvidia`
-- and `Ascend` read what the tools of the devices print; `Rows` and `Csv` prove the reading of the CSV
-- lines, `Inventory` what the control plane keeps of a snapshot.
pub mod Nvidia
pub mod Ascend
pub mod Rows
pub mod Columns
pub mod Csv
pub mod Inventory
mod Tests
use psychic_funicular.Base.{
  ℕ, Bool, true, false, String, Option, none, some, List, [], ◌∷◌, ◌++◌, if◌then◌else◌, map,
  str_mem, ◌==◌, ◌||◌,
}
use psychic_funicular.Base.Int.{ℤ}
use psychic_funicular.Platform.{Platform}
use psychic_funicular.Model.{Device}
use psychic_funicular.Server.Convert.{Resources, device_of}
use psychic_funicular.Notify.Watched.{CpuStats, MemStats, DiskStats, DeviceStats, Snapshot}

module _ (p : Platform) where
  open p use {Float, float_of}

  -- What a collector does to a snapshot, which it may have changed before an error.
  abbrev pub Collector : Type 0
  Collector = Snapshot p → Option String × Snapshot p

  -- An error is only logged.
  unfoldable pub collect_loop : List Collector → Snapshot p → Snapshot p
  collect_loop [] snap = snap
  collect_loop (c ∷ cs) snap = collect_loop cs (c snap).1

  unfoldable pub collect_all : ℤ → List Collector → Snapshot p
  unfolding collect_loop
  collect_all now cs =
      collect_loop cs
        (record { timestamp_unix = now; cpu = none; mem = none; disks = []; devices = [] })

  -- The collector of the disks, on the partitions as the system lists them: the mount point, the type, and
  -- the usage, if it can be read.
  abbrev pub Partition : Type 0
  Partition = String × String × Option (DiskStats p)

  unfoldable pub disk_loop : List String → List Partition → List (DiskStats p)
  disk_loop seen [] = []
  disk_loop seen ((mount, fstype, none) ∷ parts) = disk_loop seen parts
  disk_loop seen ((mount, fstype, some u) ∷ parts) =
      let kept = disk_loop (mount ∷ seen) parts in
      let skipped = disk_loop seen parts in
      if str_mem mount seen || u.total_bytes == 0
      then skipped
      else record u { mount = mount; fstype = fstype } ∷ kept

  abbrev pub part_field {ℓ} : {A : Type ℓ} → (A → ℕ) → Option A → ℕ
  part_field field none = 0
  part_field field (some part) = field part

  unfoldable pub resources_from_snapshot : Snapshot p → Resources
  resources_from_snapshot snap = record {
    cpus = part_field (λ c. c.cores) snap.cpu;
    mem_total_bytes = part_field (λ m. m.total_bytes) snap.mem;
    devices = map (device_of p) snap.devices;
  }
