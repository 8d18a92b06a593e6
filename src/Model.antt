-- ===== src/Model.antt =====
-- internal/store/store.go and internal/event/event.go: the data that the components share.
-- The states, which the code keeps as strings, are data types; `state_name` is the string.
use psychic_funicular.Base.{ℕ, Bool, true, false, String, List}
use psychic_funicular.Base.Int.{ℤ}
use psychic_funicular.Time.{Time}

pub data NodeState : Type 0 where
  up down drain : NodeState

abbrev pub is_up : NodeState → Bool
is_up up = true
is_up _ = false

abbrev pub is_down : NodeState → Bool
is_down down = true
is_down _ = false

abbrev pub is_drain : NodeState → Bool
is_drain drain = true
is_drain _ = false

pub record Device : Type 0 where
  pub kind : String
  pub vendor : String
  pub index : ℕ  -- uint32
  pub uuid : String
  pub mem_total_bytes : ℕ  -- uint64
  pub name : String

pub record Node : Type 0 where
  pub id : String
  pub name : String
  pub partition : String
  pub state : NodeState
  pub addr : String
  pub cpus : ℕ  -- uint32
  pub mem_total_bytes : ℕ  -- uint64
  pub devices : List Device
  pub labels : List (String × String)
  pub agent_version : String
  pub last_heartbeat : Time

pub data JobState : Type 0 where
  pending assigned running completed failed cancelling cancelled timeout : JobState

abbrev pub state_name : JobState → String
state_name pending = "PENDING"
state_name assigned = "ASSIGNED"
state_name running = "RUNNING"
state_name completed = "COMPLETED"
state_name failed = "FAILED"
state_name cancelling = "CANCELLING"
state_name cancelled = "CANCELLED"
state_name timeout = "TIMEOUT"

abbrev pub same_state : JobState → JobState → Bool
same_state pending pending = true
same_state assigned assigned = true
same_state running running = true
same_state completed completed = true
same_state failed failed = true
same_state cancelling cancelling = true
same_state cancelled cancelled = true
same_state timeout timeout = true
same_state _ _ = false

-- internal/server/clusterjobs.go, isTerminalState
abbrev pub is_terminal_state : JobState → Bool
is_terminal_state completed = true
is_terminal_state failed = true
is_terminal_state cancelled = true
is_terminal_state timeout = true
is_terminal_state _ = false

pub record AllocDevice : Type 0 where
  pub kind : String
  pub index : ℕ  -- uint32

pub record Job : Type 0 where
  pub id : String
  pub name : String
  pub owner : String
  pub partition : String
  pub state : JobState
  pub priority : ℤ  -- int32
  pub command : String
  pub env : List (String × String)
  pub workdir : String
  pub req_cpus : ℕ  -- uint32
  pub req_mem_bytes : ℕ  -- uint64
  pub req_gpus : ℕ  -- uint32
  pub gpu_type : String
  pub walltime_sec : ℤ  -- int64
  pub node_id : String
  pub node_name : String
  pub devices : List AllocDevice
  pub exit_code : ℤ  -- int32
  pub reason : String
  pub submit_at : Time
  pub start_at : Time
  pub end_at : Time

pub record Event : Type 0 where
  pub id : String
  pub kind : String  -- the field Type
  pub severity : String
  pub source : String
  pub summary : String
  pub dedup_key : String
  pub labels : List (String × String)
  pub time : Time

pub record Notification : Type 0 where
  pub id : String
  pub event_id : String
  pub event_type : String
  pub rule : String
  pub channel : String
  pub recipients : String
  pub status : String
  pub error : String
  pub summary : String
  pub time : Time
