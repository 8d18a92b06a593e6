-- ===== src/Server/Convert.antt =====
-- convert.go and convert_jobs.go: the messages of gen/skipper/v1, field by field. A message of which a
-- pointer may be nil is an Option.
use psychic_funicular.Base.{ℕ, String, Option, none, some, List, ◌++◌, map, if◌then◌else◌}
use psychic_funicular.Base.Int.{ℤ, pos}
use psychic_funicular.Platform.{Platform}
use psychic_funicular.Time.{Time, is_zero, unix}
use psychic_funicular.Model.{Device, Node, NodeState, Job, JobState, AllocDevice}
use psychic_funicular.Notify.Watched.{DeviceStats, Snapshot}

pub record Resources : Type 0 where
  pub cpus : ℕ
  pub mem_total_bytes : ℕ
  pub devices : List Device

unfoldable pub resources_from_proto : Node → Option Resources → Node
resources_from_proto n none = n
resources_from_proto n (some r) = record n {
  cpus = r.cpus;
  mem_total_bytes = r.mem_total_bytes;
  devices = r.devices;
}

-- A field of a part of the snapshot, if the part is there.
abbrev pub or_else {ℓ} : {A : Type ℓ} → ℕ → (A → ℕ) → Option A → ℕ
or_else n field none = n
or_else n field (some part) = field part

module _ (p : Platform) where
  abbrev pub device_of : DeviceStats p → Device
  device_of d = record {
    kind = d.kind;
    vendor = d.vendor;
    index = d.index;
    uuid = d.uuid;
    mem_total_bytes = d.mem_total_bytes;
    name = d.name;
  }

  -- The devices are added to those of the node.
  unfoldable pub node_from_snapshot : Node → Option (Snapshot p) → Node
  node_from_snapshot n none = n
  node_from_snapshot n (some snap) = record n {
    cpus = or_else n.cpus (λ c. c.cores) snap.cpu;
    mem_total_bytes = or_else n.mem_total_bytes (λ m. m.total_bytes) snap.mem;
    devices = n.devices ++ map device_of snap.devices;
  }

unfoldable pub unix_or_zero : Time → ℤ
unix_or_zero t = if is_zero t then pos 0 else unix t

pub record NodeMessage : Type 0 where
  pub id : String
  pub name : String
  pub partition : String
  pub state : NodeState
  pub addr : String
  pub resources : Resources
  pub labels : List (String × String)
  pub last_heartbeat_unix : ℤ
  pub agent_version : String

unfoldable pub node_to_proto : Node → NodeMessage
unfolding unix_or_zero
node_to_proto n = record {
  id = n.id;
  name = n.name;
  partition = n.partition;
  state = n.state;
  addr = n.addr;
  resources = record { cpus = n.cpus; mem_total_bytes = n.mem_total_bytes; devices = n.devices };
  labels = n.labels;
  last_heartbeat_unix = unix_or_zero n.last_heartbeat;
  agent_version = n.agent_version;
}

pub record ResourceRequest : Type 0 where
  pub cpus : ℕ
  pub mem_bytes : ℕ
  pub gpus : ℕ
  pub gpu_type : String
  pub walltime_sec : ℤ

pub record JobMessage : Type 0 where
  pub id : String
  pub name : String
  pub owner : String
  pub partition : String
  pub state : JobState
  pub priority : ℤ
  pub command : String
  pub env : List (String × String)
  pub workdir : String
  pub request : ResourceRequest
  pub node_id : String
  pub node_name : String
  pub devices : List AllocDevice
  pub exit_code : ℤ
  pub reason : String
  pub submit_at_unix : ℤ
  pub start_at_unix : ℤ
  pub end_at_unix : ℤ

unfoldable pub job_to_proto : Job → JobMessage
unfolding unix_or_zero
job_to_proto j = record {
  id = j.id;
  name = j.name;
  owner = j.owner;
  partition = j.partition;
  state = j.state;
  priority = j.priority;
  command = j.command;
  env = j.env;
  workdir = j.workdir;
  request = record {
    cpus = j.req_cpus;
    mem_bytes = j.req_mem_bytes;
    gpus = j.req_gpus;
    gpu_type = j.gpu_type;
    walltime_sec = j.walltime_sec;
  };
  node_id = j.node_id;
  node_name = j.node_name;
  devices = j.devices;
  exit_code = j.exit_code;
  reason = j.reason;
  submit_at_unix = unix_or_zero j.submit_at;
  start_at_unix = unix_or_zero j.start_at;
  end_at_unix = unix_or_zero j.end_at;
}

pub record Assignment : Type 0 where
  pub job_id : String
  pub command : String
  pub env : List (String × String)
  pub workdir : String
  pub devices : List AllocDevice
  pub walltime_sec : ℤ

unfoldable pub assignment_to_proto : Job → Assignment
assignment_to_proto j = record {
  job_id = j.id;
  command = j.command;
  env = j.env;
  workdir = j.workdir;
  devices = j.devices;
  walltime_sec = j.walltime_sec;
}
