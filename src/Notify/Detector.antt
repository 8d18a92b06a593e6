-- ===== src/Notify/Detector.antt =====
-- detector.go: the scan. What a detector does with an event is its parameter `emit`; the engine's `Emit`
-- is one.
use psychic_funicular.Base.{
  Bool, true, not, ◌&&◌, String, Option, none, some, List, [], ◌∷◌, if◌then◌else◌, lookup, insert,
  delete,
}
use psychic_funicular.Base.Int.{ltb_ℤ}
use psychic_funicular.Platform.{Platform}
use psychic_funicular.Time.{Time, sub}
use psychic_funicular.Model.{Node, Job, Event, is_up}
use psychic_funicular.Store.Api.{Result, ok, err}
use psychic_funicular.Notify.Watched.{
  DiskStats, DeviceStats, Snapshot, Metrics, get, DetectorConfig, Watch, disk_key, was_full,
  full_event, recovered_event, percent_of, is_full, allocation_of, device_key, idle_event,
}

module _ (p : Platform) where
  module _ {S : Type 0} (emit : Event → S → S) (cfg : DetectorConfig p) where
    -- The `switch` of `checkDisks`, for one disk.
    unfoldable pub check_disk :
        Node → DiskStats p → List (String × Bool) × S → List (String × Bool) × S
    unfolding was_full
    check_disk n disk (m, st) =
        let key = disk_key p n disk in
        if is_full p cfg disk && not (was_full p key m)
        then (insert key true m, emit (full_event p n disk) st)
        else if not (is_full p cfg disk) && was_full p key m
        then (delete key m, emit (recovered_event p n disk) st)
        else (m, st)

    unfoldable pub check_disks :
        Node → List (DiskStats p) → List (String × Bool) × S → List (String × Bool) × S
    unfolding check_disk
    check_disks n [] w = w
    check_disks n (disk ∷ disks) w = check_disks n disks (check_disk n disk w)

    -- The body of the loop of `checkDevices`, for one device.
    unfoldable pub check_device :
        Node → List Job → Time → DeviceStats p → List (String × Time) × S → List (String × Time) × S
    unfolding allocation_of
    check_device n active now dev (m, st) =
        let key = device_key p n dev in
        if p.float_le (percent_of p cfg.device_idle_util) dev.utilization
        then (delete key m, st)
        else elim (lookup key m) [
          | none ↦ (insert key now m, st)
          | some first ↦ if ltb_ℤ (sub now first) cfg.device_idle_duration then (m, st) else (
            m,
            emit (idle_event p cfg n dev (allocation_of p n.id dev.kind dev.index active)) st,
          )
        ]

    unfoldable pub check_devices :
        Node
        → List Job
        → Time
        → List (DeviceStats p)
        → List (String × Time) × S
        → List (String × Time) × S
    unfolding check_device
    check_devices n active now [] w = w
    check_devices n active now (dev ∷ devs) w =
        check_devices n active now devs (check_device n active now dev w)

    -- The body of the loop of `scan`.
    unfoldable pub scan_node :
        List Job → Time → Node → Option (Option (Snapshot p)) → Watch p × S → Watch p × S
    unfolding check_disks check_devices
    scan_node active now n (some (some snap)) (w, st) =
        let (full, st') = check_disks n snap.disks (w.disk_full, st) in
        let (idle, st'') = check_devices n active now snap.devices (w.idle_since, st') in
        (record { disk_full = full; idle_since = idle }, st'')
    scan_node active now n (some none) w = w
    scan_node active now n none w = w

    unfoldable pub scan_nodes : List Node → List Job → Metrics p → Time → Watch p × S → Watch p × S
    unfolding scan_node get
    scan_nodes [] active m now w = w
    scan_nodes (n ∷ ns) active m now w =
        scan_nodes ns active m now
          (if is_up n.state then scan_node active now n (get p n.id m) w else w)

    -- A failed query of the active jobs is read as no jobs.
    unfoldable pub scan :
        Result (List Node) → Result (List Job) → Metrics p → Time → Watch p × S → Watch p × S
    unfolding scan_nodes
    scan (err e) active m now w = w
    scan (ok nodes) (ok active) m now w = scan_nodes nodes active m now w
    scan (ok nodes) (err e) m now w = scan_nodes nodes [] m now w
