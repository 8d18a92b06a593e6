-- ===== src/Server/Cluster.antt =====
-- clustersvc.go, clusterevents.go and clusterjobs.go: the calls of a client.
use psychic_funicular.Base.{String, Option, none, some, List, [], map, if◌then◌else◌, str_eq}
use psychic_funicular.Base.Int.{ℤ, pos}
use psychic_funicular.Platform.{Platform}
use psychic_funicular.Time.{Time, zero_time}
use psychic_funicular.Model.{Node, Job, JobState, pending, Event, Notification}
use psychic_funicular.Store.Api.{Store, Result, ok, err}
use psychic_funicular.Notify.Engine.{Config}
use psychic_funicular.Notify.Watched.{Snapshot, get}
use psychic_funicular.Server.Convert.{
  NodeMessage, node_to_proto, JobMessage, job_to_proto, ResourceRequest, unix_or_zero,
}
use psychic_funicular.Server.State.{
  Reply, reply, invalid_argument, not_found, internal, Server, new_id, issue, set_store,
}

pub record SubmitRequest : Type 0 where
  pub name : String
  pub owner : String
  pub partition : String
  pub priority : ℤ
  pub command : String
  pub env : List (String × String)
  pub workdir : String
  pub request : Option ResourceRequest

abbrev pub owner_or_default : String → String
owner_or_default o = if str_eq o "" then "anonymous" else o

-- The getters of a nil request give zeros.
abbrev pub request_or_zero : Option ResourceRequest → ResourceRequest
request_or_zero none = record {
  cpus = 0;
  mem_bytes = 0;
  gpus = 0;
  gpu_type = "";
  walltime_sec = pos 0;
}
request_or_zero (some r) = r

unfoldable pub submitted_job : String → SubmitRequest → Time → Job
submitted_job id req now =
    let r = request_or_zero req.request in
    record {
      id = id;
      name = req.name;
      owner = owner_or_default req.owner;
      partition = req.partition;
      state = pending;
      priority = req.priority;
      command = req.command;
      env = req.env;
      workdir = req.workdir;
      req_cpus = r.cpus;
      req_mem_bytes = r.mem_bytes;
      req_gpus = r.gpus;
      gpu_type = r.gpu_type;
      walltime_sec = r.walltime_sec;
      node_id = "";
      node_name = "";
      devices = [];
      exit_code = pos 0;
      reason = "";
      submit_at = now;
      start_at = zero_time;
      end_at = zero_time;
    }

abbrev pub answer_all {ℓ κ} :
    {A : Type ℓ} {B : Type κ} → String → (A → B) → Result (List A) → Reply (List B)
answer_all failed f (ok xs) = reply (map f xs)
answer_all failed f (err e) = internal failed

-- The messages of an event and of a notification differ from the records in the time only.
abbrev pub event_message : Event → Event × ℤ
event_message e = (e, unix_or_zero e.time)

abbrev pub notification_message : Notification → Notification × ℤ
notification_message n = (n, unix_or_zero n.time)

module _ (p : Platform) (s : Store) (cfg : Config) where
  open s use {
    create_job, list_jobs, get_job, cancel_job, list_nodes, list_events, list_notifications,
  }

  unfoldable pub submit_job : SubmitRequest → Time → Server p s cfg → Reply String × Server p s cfg
  unfolding submitted_job
  submit_job req now w =
      let id = new_id p s cfg w in
      let (res, st) = create_job (submitted_job id req now) w.engine.store in
      if str_eq req.command "" then (invalid_argument "command is required", w) else (
        elim res [ ok _ ↦ reply id | err e ↦ internal "submit job failed" ],
        set_store p s cfg st (issue p s cfg w),
      )

  unfoldable pub cancel_handler : String → Time → Server p s cfg → Reply JobState × Server p s cfg
  cancel_handler job_id now w =
      let (res, st) = cancel_job job_id now w.engine.store in
      if str_eq job_id ""
      then (invalid_argument "job_id is required", w)
      else (elim res [ ok state ↦ reply state | err e ↦ not_found e ], set_store p s cfg st w)

  unfoldable pub list_jobs_handler : String → String → Server p s cfg → Reply (List JobMessage)
  unfolding job_to_proto
  list_jobs_handler state owner w =
      answer_all "list jobs failed" job_to_proto (list_jobs state owner w.engine.store)

  unfoldable pub get_job_handler : String → Server p s cfg → Reply JobMessage
  unfolding job_to_proto
  get_job_handler job_id w = elim (get_job job_id w.engine.store) [
    | err e ↦ internal "get job failed"
    | ok found ↦ elim found [ none ↦ not_found "job not found" | some j ↦ reply (job_to_proto j) ]
  ]

  unfoldable pub list_nodes_handler : Server p s cfg → Reply (List NodeMessage)
  unfolding node_to_proto
  list_nodes_handler w = answer_all "list nodes failed" node_to_proto (list_nodes w.engine.store)

  -- A node with its snapshot; one that is not there and one that is nil are sent alike.
  abbrev pub node_metrics : Server p s cfg → Node → Node × Option (Snapshot p)
  unfolding get
  node_metrics w n = (n, elim (get p n.id w.metrics) [ none ↦ none | some snap ↦ snap ])

  unfoldable pub list_metrics : Server p s cfg → Reply (List (Node × Option (Snapshot p)))
  list_metrics w = answer_all "list metrics failed" (node_metrics w) (list_nodes w.engine.store)

  unfoldable pub list_events_handler : ℤ → Server p s cfg → Reply (List (Event × ℤ))
  list_events_handler limit w =
      answer_all "list events failed" event_message (list_events limit w.engine.store)

  unfoldable pub list_notifications_handler : ℤ → Server p s cfg → Reply (List (Notification × ℤ))
  list_notifications_handler limit w =
      answer_all "list notifications failed" notification_message
        (list_notifications limit w.engine.store)
