-- ===== src/Store/Rows.antt =====
-- The rows of the tables, and `scanJob` with the conversions of times. A column of JSON is taken to
-- hold the value that was written into it.
use psychic_funicular.Base.{ℕ, String, List, if◌then◌else◌}
use psychic_funicular.Base.Int.{ℤ, pos, leb_ℤ}
use psychic_funicular.Time.{Time, zero_time, is_zero, unix, of_unix}
use psychic_funicular.Model.{
  Device, Node, NodeState, Job, JobState, AllocDevice, Event, Notification,
}

unfoldable pub unix_to_time : ℤ → Time
unix_to_time u = if leb_ℤ u (pos 0) then zero_time else of_unix u

unfoldable pub unix_of : Time → ℤ
unix_of t = if is_zero t then pos 0 else unix t

pub record NodeRow : Type 0 where
  pub id : String
  pub name : String
  pub partition : String
  pub state : NodeState
  pub addr : String
  pub cpus : ℕ
  pub mem_total_bytes : ℕ
  pub devices : List Device
  pub labels : List (String × String)
  pub agent_version : String
  pub last_heartbeat : ℤ

unfoldable pub node_row : Node → NodeRow
node_row n = record {
  id = n.id;
  name = n.name;
  partition = n.partition;
  state = n.state;
  addr = n.addr;
  cpus = n.cpus;
  mem_total_bytes = n.mem_total_bytes;
  devices = n.devices;
  labels = n.labels;
  agent_version = n.agent_version;
  last_heartbeat = unix n.last_heartbeat;
}

unfoldable pub scan_node : NodeRow → Node
unfolding unix_to_time
scan_node r = record {
  id = r.id;
  name = r.name;
  partition = r.partition;
  state = r.state;
  addr = r.addr;
  cpus = r.cpus;
  mem_total_bytes = r.mem_total_bytes;
  devices = r.devices;
  labels = r.labels;
  agent_version = r.agent_version;
  last_heartbeat = unix_to_time r.last_heartbeat;
}

pub record JobRow : Type 0 where
  pub id : String
  pub name : String
  pub owner : String
  pub partition : String
  pub state : JobState
  pub priority : ℤ
  pub command : String
  pub env : List (String × String)
  pub workdir : String
  pub req_cpus : ℕ
  pub req_mem_bytes : ℕ
  pub req_gpus : ℕ
  pub gpu_type : String
  pub walltime_sec : ℤ
  pub node_id : String
  pub node_name : String
  pub devices : List AllocDevice
  pub exit_code : ℤ
  pub reason : String
  pub submit_at : ℤ
  pub start_at : ℤ
  pub end_at : ℤ

unfoldable pub job_row : Job → JobRow
unfolding unix_of
job_row j = record {
  id = j.id;
  name = j.name;
  owner = j.owner;
  partition = j.partition;
  state = j.state;
  priority = j.priority;
  command = j.command;
  env = j.env;
  workdir = j.workdir;
  req_cpus = j.req_cpus;
  req_mem_bytes = j.req_mem_bytes;
  req_gpus = j.req_gpus;
  gpu_type = j.gpu_type;
  walltime_sec = j.walltime_sec;
  node_id = j.node_id;
  node_name = j.node_name;
  devices = j.devices;
  exit_code = j.exit_code;
  reason = j.reason;
  submit_at = unix_of j.submit_at;
  start_at = unix_of j.start_at;
  end_at = unix_of j.end_at;
}

unfoldable pub scan_job : JobRow → Job
unfolding unix_to_time
scan_job r = record {
  id = r.id;
  name = r.name;
  owner = r.owner;
  partition = r.partition;
  state = r.state;
  priority = r.priority;
  command = r.command;
  env = r.env;
  workdir = r.workdir;
  req_cpus = r.req_cpus;
  req_mem_bytes = r.req_mem_bytes;
  req_gpus = r.req_gpus;
  gpu_type = r.gpu_type;
  walltime_sec = r.walltime_sec;
  node_id = r.node_id;
  node_name = r.node_name;
  devices = r.devices;
  exit_code = r.exit_code;
  reason = r.reason;
  submit_at = unix_to_time r.submit_at;
  start_at = unix_to_time r.start_at;
  end_at = unix_to_time r.end_at;
}

-- An event or a notification is written with `Time.Unix` and read by `unixToTime`.
unfoldable pub event_row : Event → Event × ℤ
event_row e = (e, unix e.time)

unfoldable pub scan_event : Event × ℤ → Event
unfolding unix_to_time
scan_event (e, ts) = record e { time = unix_to_time ts }

unfoldable pub notification_row : Notification → Notification × ℤ
notification_row n = (n, unix n.time)

unfoldable pub scan_notification : Notification × ℤ → Notification
unfolding unix_to_time
scan_notification (n, ts) = record n { time = unix_to_time ts }

pub record Db : Type 0 where
  pub nodes : List NodeRow
  pub jobs : List JobRow
  pub events : List (Event × ℤ)
  pub notifications : List (Notification × ℤ)
