-- ===== src/Server/Messages.antt =====
-- The requests and the answers of agentsvc.go and agentjobs.go, the event of a job that has ended, and
-- the states that a request may name.
use psychic_funicular.Base.{suc, Bool, String, Option, List, [], ◌∷◌, if◌then◌else◌, str_eq}
use psychic_funicular.Base.Int.{ℤ, pos, negsuc}
use psychic_funicular.Time.{zero_time}
use psychic_funicular.Model.{
  Node, up, Job, JobState, completed, failed, cancelled, timeout, state_name, same_state, Event,
}
use psychic_funicular.Format.{concat, decimal}
use psychic_funicular.Server.Convert.{Resources, Assignment}

pub record RegisterRequest : Type 0 where
  pub name : String
  pub partition : String
  pub resources : Option Resources
  pub labels : List (String × String)
  pub agent_version : String

pub record Beat : Type 0 where
  pub ok : Bool
  pub should_reregister : Bool

pub record Poll : Type 0 where
  pub run : List Assignment
  pub cancel_job_ids : List String
  pub should_reregister : Bool

pub record StatusRequest : Type 0 where
  pub job_id : String
  pub state : String
  pub exit_code : ℤ
  pub reason : String

-- A node of which only the id is set. Its state is written over or not read.
abbrev pub bare_node : String → Node
bare_node id = record {
  id = id;
  name = "";
  partition = "";
  state = up;
  addr = "";
  cpus = 0;
  mem_total_bytes = 0;
  devices = [];
  labels = [];
  agent_version = "";
  last_heartbeat = zero_time;
}

-- %d of an int32
abbrev pub signed_decimal : ℤ → String
signed_decimal (pos n) = decimal n
signed_decimal (negsuc n) = concat ("-" ∷ decimal (suc n) ∷ [])

-- The name in the summary of a job's event.
abbrev pub shown_name : String → String → String
shown_name name job_id = if str_eq name "" then job_id else name

unfoldable pub job_event : Job → String → JobState → ℤ → Event
job_event j job_id state code =
    let done = same_state state completed in
    record {
      id = "";
      kind = if done then "job.completed" else "job.failed";
      severity = if done then "info" else "warning";
      source = job_id;
      summary = concat (
          "作业 "
          ∷ shown_name j.name job_id
          ∷ " "
          ∷ state_name state
          ∷ "，退出码 "
          ∷ signed_decimal code
          ∷ []);
      dedup_key = concat ("job|" ∷ job_id ∷ []);
      labels =
          ("job", job_id)
          ∷ ("name", j.name)
          ∷ ("owner", j.owner)
          ∷ ("node", j.node_name)
          ∷ ("state", state_name state)
          ∷ ("exit_code", signed_decimal code)
          ∷ [];
      time = zero_time;
    }

-- The `switch` of `UpdateJobStatus` on the text of a state.
pub data Change : Type 0 where
  starts : Change
  ends : JobState → Change
  unknown : Change

unfoldable pub change_of : String → Change
change_of state =
    if str_eq state "RUNNING"
    then starts
    else if str_eq state "COMPLETED"
    then ends completed
    else if str_eq state "FAILED"
    then ends failed
    else if str_eq state "CANCELLED"
    then ends cancelled
    else if str_eq state "TIMEOUT"
    then ends timeout
    else unknown
