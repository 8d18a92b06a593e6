-- ===== src/Skctl/Tables.antt =====
-- The tables that the commands of skctl print: the heads, a row of cells for each element of an answer,
-- and a line of its own if there is none. A size that cannot be printed ends the program: no table then.
use psychic_funicular.Base.{ℕ, String, Option, none, some, List, [], ◌∷◌, ◌++◌, map, str_eq, keep}
use psychic_funicular.Base.Int.{ℤ, pos}
use psychic_funicular.Platform.{Platform}
use psychic_funicular.Model.{Node, NodeState, up, down, drain, Event, Notification, state_name}
use psychic_funicular.Format.{concat, decimal}
use psychic_funicular.Notify.Watched.{DeviceStats, Snapshot}
use psychic_funicular.Server.Convert.{NodeMessage, JobMessage}
use psychic_funicular.Server.Messages.{signed_decimal}
use psychic_funicular.Skctl.Text.{
  human_bytes, heartbeat_age, runtime_of, ts_short, dash, short_id, count_kinds,
}

abbrev pub Row : Type 0
Row = List String

abbrev pub Table : Type 0
Table = Option (List Row)

infixl 5 ◌>>=◌
abbrev ◌>>=◌ {ℓ κ} : {A : Type ℓ} {B : Type κ} → Option A → (A → Option B) → Option B
none >>= f = none
some a >>= f = f a

abbrev pub all_rows {ℓ} : {A : Type ℓ} → (A → Option Row) → List A → Table
all_rows f [] = some []
all_rows f (x ∷ xs) = do r ← f x; rs ← all_rows f xs; some (r ∷ rs)

abbrev or_line : String → List Row → List Row
or_line line [] = (line ∷ []) ∷ []
or_line line (r ∷ rs) = r ∷ rs

-- A table under its heads.
abbrev pub table : Row → String → Table → Table
table heads line none = none
table heads line (some rows) = some (heads ∷ or_line line rows)

abbrev pub node_state_name : NodeState → String
node_state_name up = "UP"
node_state_name down = "DOWN"
node_state_name drain = "DRAIN"

module _ (p : Platform) where
  open p use {Float, float_of, format_whole, format_hundredth}

  -- A row of `cmdNodes`; `now` is the time of the call.
  unfoldable pub node_row : ℤ → NodeMessage → Option Row
  unfolding human_bytes heartbeat_age count_kinds
  node_row now n =
      let (gpu, npu) = count_kinds (map (λ d. d.kind) n.resources.devices) in
      do
        mem ← human_bytes p n.resources.mem_total_bytes
        some (
            n.name
            ∷ node_state_name n.state
            ∷ n.partition
            ∷ decimal n.resources.cpus
            ∷ mem
            ∷ decimal gpu
            ∷ decimal npu
            ∷ heartbeat_age p now n.last_heartbeat_unix
            ∷ n.agent_version
            ∷ [])

  unfoldable pub nodes_table : ℤ → List NodeMessage → Table
  unfolding node_row
  nodes_table now nodes =
      table
        ("NAME" ∷ "STATE" ∷ "PARTITION" ∷ "CPUS" ∷ "MEM" ∷ "GPU" ∷ "NPU" ∷ "HEARTBEAT" ∷ "VERSION"
          ∷ [])
        "(no nodes registered)" (all_rows (node_row now) nodes)

  -- The getters of a nil part give zeros.
  abbrev pub float_field {ℓ} : {A : Type ℓ} → (A → Float) → Option A → Float
  float_field f none = float_of (pos 0)
  float_field f (some a) = f a

  abbrev pub size_field {ℓ} : {A : Type ℓ} → (A → ℕ) → Option A → ℕ
  size_field f none = 0
  size_field f (some a) = f a

  abbrev pub part_of {ℓ} : {A : Type ℓ} → (Snapshot p → Option A) → Option (Snapshot p) → Option A
  part_of f none = none
  part_of f (some snap) = f snap

  abbrev pub devices_of : Option (Snapshot p) → List (DeviceStats p)
  devices_of none = []
  devices_of (some snap) = snap.devices

  -- A row of `cmdTop`.
  unfoldable pub top_row : Node × Option (Snapshot p) → Option Row
  unfolding human_bytes count_kinds
  top_row (n, snap) =
      let cpu = part_of (λ s. s.cpu) snap in
      let mem = part_of (λ s. s.mem) snap in
      let (gpu, npu) = count_kinds (map (λ d. d.kind) (devices_of snap)) in
      do
        used ← human_bytes p (size_field (λ m. m.used_bytes) mem)
        total ← human_bytes p (size_field (λ m. m.total_bytes) mem)
        some (
            n.name
            ∷ node_state_name n.state
            ∷ format_whole (float_field (λ c. c.utilization) cpu)
            ∷ concat (used ∷ "/" ∷ total ∷ [])
            ∷ format_whole (float_field (λ m. m.used_percent) mem)
            ∷ format_hundredth (float_field (λ c. c.load1) cpu)
            ∷ decimal gpu
            ∷ decimal npu
            ∷ [])

  unfoldable pub top_table : List (Node × Option (Snapshot p)) → Table
  unfolding top_row
  top_table nodes =
      table ("NODE" ∷ "STATE" ∷ "CPU%" ∷ "MEM" ∷ "MEM%" ∷ "LOAD1" ∷ "GPU" ∷ "NPU" ∷ [])
        "(no nodes registered)" (all_rows top_row nodes)

  -- A row of `cmdDevices`.
  unfoldable pub device_row : String → DeviceStats p → Option Row
  unfolding human_bytes
  device_row node_name d = do
    used ← human_bytes p d.mem_used_bytes
    total ← human_bytes p d.mem_total_bytes
    some (
        node_name
        ∷ decimal d.index
        ∷ d.name
        ∷ format_whole d.utilization
        ∷ concat (used ∷ "/" ∷ total ∷ [])
        ∷ concat (format_whole d.temperature_c ∷ "°C" ∷ [])
        ∷ concat (format_whole d.power_watts ∷ "W" ∷ [])
        ∷ [])

  -- The devices of a kind, each with the name of its node.
  unfoldable pub devices_of_kind :
      String → List (Node × Option (Snapshot p)) → List (String × DeviceStats p)
  devices_of_kind kind [] = []
  devices_of_kind kind ((n, snap) ∷ nodes) =
      map (λ d. (n.name, d)) (keep (λ d. str_eq d.kind kind) (devices_of snap))
      ++ devices_of_kind kind nodes

  unfoldable pub devices_table : String → List (Node × Option (Snapshot p)) → Table
  unfolding device_row devices_of_kind
  devices_table kind nodes =
      table ("NODE" ∷ "IDX" ∷ "NAME" ∷ "UTIL%" ∷ "MEM" ∷ "TEMP" ∷ "POWER" ∷ [])
        (concat ("(no " ∷ kind ∷ " devices reported)" ∷ []))
        (all_rows (λ (nd : String × DeviceStats p). device_row nd.0 nd.1)
          (devices_of_kind kind nodes))

  -- A row of `cmdQueue`.
  unfoldable pub job_cells : ℤ → JobMessage → Option Row
  unfolding runtime_of
  job_cells now j = some (
      short_id j.id
      ∷ dash j.name
      ∷ j.owner
      ∷ state_name j.state
      ∷ dash j.partition
      ∷ dash j.node_name
      ∷ signed_decimal j.priority
      ∷ decimal j.request.cpus
      ∷ decimal j.request.gpus
      ∷ runtime_of p now j
      ∷ [])

  unfoldable pub queue_table : ℤ → List JobMessage → Table
  unfolding job_cells
  queue_table now jobs =
      table
        ("JOBID" ∷ "NAME" ∷ "OWNER" ∷ "STATE" ∷ "PART" ∷ "NODE" ∷ "PRIO" ∷ "CPUS" ∷ "GPUS"
          ∷ "RUNTIME" ∷ [])
        "(no jobs)" (all_rows (job_cells now) jobs)

  -- The rows of `cmdEvents` and `cmdNotifications`; a message is a record and its time.
  unfoldable pub events_table : List (Event × ℤ) → Table
  unfolding ts_short
  events_table events =
      table ("TIME" ∷ "SEVERITY" ∷ "TYPE" ∷ "SOURCE" ∷ "SUMMARY" ∷ []) "(no events)" (
        all_rows
          (λ (m : Event × ℤ).
            let e = m.0 in some (ts_short p m.1 ∷ e.severity ∷ e.kind ∷ e.source ∷ e.summary ∷ []))
          events)

  unfoldable pub notifications_table : List (Notification × ℤ) → Table
  unfolding ts_short
  notifications_table ns =
      table ("TIME" ∷ "TYPE" ∷ "CHANNEL" ∷ "TO" ∷ "STATUS" ∷ "SUMMARY" ∷ []) "(no notifications)" (
        all_rows
          (λ (m : Notification × ℤ).
            let n = m.0 in
            some (
              ts_short p m.1
              ∷ n.event_type
              ∷ n.channel
              ∷ dash n.recipients
              ∷ n.status
              ∷ n.summary
              ∷ []))
          ns)
