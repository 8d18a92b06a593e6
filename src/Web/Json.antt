-- ===== src/Web/Json.antt =====
-- The JSON answers of webserver.go, and what they are made of.
use psychic_funicular.Base.{ℕ, Bool, true, false, String, Option, none, some, List, [], ◌∷◌, map}
use psychic_funicular.Base.Int.{ℤ, pos}
use psychic_funicular.Platform.{Platform}
use psychic_funicular.Model.{
  Device, Node, NodeState, Job, JobState, AllocDevice, Event, Notification,
}
use psychic_funicular.Notify.Watched.{
  CpuStats, MemStats, DiskStats, DeviceStats, Snapshot, Metrics, get,
}
use psychic_funicular.Server.Convert.{ResourceRequest, unix_or_zero}

-- jobJSON; the object for a nil map is empty, as the model's maps are.
pub record JobJson : Type 0 where
  pub id : String
  pub name : String
  pub owner : String
  pub partition : String
  pub state : JobState
  pub priority : ℤ
  pub command : String
  pub workdir : String
  pub env : List (String × String)
  pub request : ResourceRequest
  pub node_id : String
  pub node_name : String
  pub devices : List AllocDevice
  pub exit_code : ℤ
  pub reason : String
  pub submit_at_unix : ℤ
  pub start_at_unix : ℤ
  pub end_at_unix : ℤ

unfoldable pub job_to_json : Job → JobJson
unfolding unix_or_zero
job_to_json j = record {
  id = j.id;
  name = j.name;
  owner = j.owner;
  partition = j.partition;
  state = j.state;
  priority = j.priority;
  command = j.command;
  workdir = j.workdir;
  env = j.env;
  request = record {
    cpus = j.req_cpus;
    mem_bytes = j.req_mem_bytes;
    gpus = j.req_gpus;
    gpu_type = j.gpu_type;
    walltime_sec = j.walltime_sec;
  };
  node_id = j.node_id;
  node_name = j.node_name;
  devices = j.devices;
  exit_code = j.exit_code;
  reason = j.reason;
  submit_at_unix = unix_or_zero j.submit_at;
  start_at_unix = unix_or_zero j.start_at;
  end_at_unix = unix_or_zero j.end_at;
}

pub record EventJson : Type 0 where
  pub id : String
  pub kind : String
  pub severity : String
  pub source : String
  pub summary : String
  pub labels : List (String × String)
  pub time_unix : ℤ

unfoldable pub event_to_json : Event → EventJson
unfolding unix_or_zero
event_to_json e = record {
  id = e.id;
  kind = e.kind;
  severity = e.severity;
  source = e.source;
  summary = e.summary;
  labels = e.labels;
  time_unix = unix_or_zero e.time;
}

pub record NotifJson : Type 0 where
  pub id : String
  pub event_id : String
  pub event_type : String
  pub rule : String
  pub channel : String
  pub recipients : String
  pub status : String
  pub error : String
  pub summary : String
  pub time_unix : ℤ

unfoldable pub notif_to_json : Notification → NotifJson
unfolding unix_or_zero
notif_to_json n = record {
  id = n.id;
  event_id = n.event_id;
  event_type = n.event_type;
  rule = n.rule;
  channel = n.channel;
  recipients = n.recipients;
  status = n.status;
  error = n.error;
  summary = n.summary;
  time_unix = unix_or_zero n.time;
}

module _ (p : Platform) where
  open p use {Float, float_of}

  pub record DeviceJson : Type 0 where
    pub kind : String
    pub vendor : String
    pub index : ℕ
    pub uuid : String
    pub name : String
    pub mem_total_bytes : ℕ
    pub mem_used_bytes : ℕ
    pub utilization : Float
    pub temperature_c : Float
    pub power_watts : Float

  abbrev pub live_device : DeviceStats p → DeviceJson
  live_device d = record {
    kind = d.kind;
    vendor = d.vendor;
    index = d.index;
    uuid = d.uuid;
    name = d.name;
    mem_total_bytes = d.mem_total_bytes;
    mem_used_bytes = d.mem_used_bytes;
    utilization = d.utilization;
    temperature_c = d.temperature_c;
    power_watts = d.power_watts;
  }

  -- The fields that the inventory does not have are zero.
  abbrev pub static_device : Device → DeviceJson
  static_device d = record {
    kind = d.kind;
    vendor = d.vendor;
    index = d.index;
    uuid = d.uuid;
    name = d.name;
    mem_total_bytes = d.mem_total_bytes;
    mem_used_bytes = 0;
    utilization = float_of (pos 0);
    temperature_c = float_of (pos 0);
    power_watts = float_of (pos 0);
  }

  abbrev pub live_or : List DeviceJson → List (DeviceStats p) → List DeviceJson
  live_or static [] = static
  live_or static (d ∷ ds) = map live_device (d ∷ ds)

  unfoldable pub node_devices : Node → Option (Snapshot p) → List DeviceJson
  node_devices n none = map static_device n.devices
  node_devices n (some snap) = live_or (map static_device n.devices) snap.devices

  pub record NodeJson : Type 0 where
    pub id : String
    pub name : String
    pub partition : String
    pub state : NodeState
    pub addr : String
    pub agent_version : String
    pub last_heartbeat_unix : ℤ
    pub cpus : ℕ
    pub mem_total_bytes : ℕ
    pub labels : List (String × String)
    pub has_metrics : Bool
    pub metrics_at_unix : ℤ
    pub cpu : Option (CpuStats p)
    pub mem : Option (MemStats p)
    pub disks : List (DiskStats p)
    pub devices : List DeviceJson

  -- A snapshot that is not there and one that is nil are the same.
  unfoldable pub snapshot_of : String → Metrics p → Option (Snapshot p)
  unfolding get
  snapshot_of id metrics = elim (get p id metrics) [ none ↦ none | some snap ↦ snap ]

  -- What of a snapshot is shown, apart from its devices.
  abbrev pub shown : NodeJson → Option (Snapshot p) → NodeJson
  shown nj none = nj
  shown nj (some snap) = record nj {
    has_metrics = true;
    metrics_at_unix = snap.timestamp_unix;
    cpu = snap.cpu;
    mem = snap.mem;
    disks = snap.disks;
  }

  unfoldable pub node_to_json : Node → Option (Snapshot p) → NodeJson
  unfolding node_devices unix_or_zero
  node_to_json n snap =
      shown
        (record {
          id = n.id;
          name = n.name;
          partition = n.partition;
          state = n.state;
          addr = n.addr;
          agent_version = n.agent_version;
          last_heartbeat_unix = unix_or_zero n.last_heartbeat;
          cpus = n.cpus;
          mem_total_bytes = n.mem_total_bytes;
          labels = n.labels;
          has_metrics = false;
          metrics_at_unix = pos 0;
          cpu = none;
          mem = none;
          disks = [];
          devices = node_devices n snap;
        })
        snap
