-- ===== src/Web/Handlers.antt =====
-- The handlers of webserver.go. A body that is no JSON is none; the answers name their HTTP status.
use psychic_funicular.Base.{ℕ, String, Option, none, some, List, [], ◌∷◌, map, if◌then◌else◌}
use psychic_funicular.Base.Int.{ℤ, pos}
use psychic_funicular.Platform.{Platform}
use psychic_funicular.Time.{Time, zero_time}
use psychic_funicular.Model.{Job, JobState, pending}
use psychic_funicular.Store.Api.{Store, Result, ok, err}
use psychic_funicular.Notify.Engine.{Config}
use psychic_funicular.Format.{concat}
use psychic_funicular.Strings.{is_empty, trim_space}
use psychic_funicular.Server.State.{Server, new_id, issue, set_store}
use psychic_funicular.Server.Cluster.{owner_or_default}
use psychic_funicular.Web.Json.{
  JobJson, job_to_json, EventJson, event_to_json, NotifJson, notif_to_json, NodeJson, node_to_json,
  snapshot_of,
}
use psychic_funicular.Web.Sizes.{query_int, parse_size, parse_walltime}

-- 200 or 201 with a value, or `fail` with a status and a text.
pub data Answer {ℓ} (A : Type ℓ) : Type ℓ where
  answered created : A → Answer A
  refused : ℕ → String → Answer A

pub record SubmitReq : Type 0 where
  pub name : String
  pub owner : String
  pub partition : String
  pub priority : ℤ
  pub command : String
  pub workdir : String
  pub cpus : ℕ
  pub mem : String
  pub gpus : ℕ
  pub gpu_type : String
  pub walltime : String
  pub env : List (String × String)

unfoldable pub web_job : String → SubmitReq → ℕ → ℤ → Time → Job
web_job id req mem walltime now = record {
  id = id;
  name = req.name;
  owner = owner_or_default req.owner;
  partition = req.partition;
  state = pending;
  priority = req.priority;
  command = req.command;
  env = req.env;
  workdir = req.workdir;
  req_cpus = req.cpus;
  req_mem_bytes = mem;
  req_gpus = req.gpus;
  gpu_type = req.gpu_type;
  walltime_sec = walltime;
  node_id = "";
  node_name = "";
  devices = [];
  exit_code = pos 0;
  reason = "";
  submit_at = now;
  start_at = zero_time;
  end_at = zero_time;
}

abbrev pub list_answer {ℓ κ} :
    {A : Type ℓ} {B : Type κ} → String → (A → B) → Result (List A) → Answer (List B)
list_answer failed f (ok xs) = answered (map f xs)
list_answer failed f (err e) = refused 500 failed

module _ (p : Platform) (s : Store) (cfg : Config) where
  open s use {
    create_job, list_jobs, get_job, cancel_job, list_nodes, list_events, list_notifications,
  }

  -- The end of `submitJob`, on a size and a walltime that are read.
  unfoldable pub create_from :
      SubmitReq → ℕ → ℤ → Time → Server p s cfg → Answer String × Server p s cfg
  unfolding web_job
  create_from req mem walltime now w =
      let id = new_id p s cfg w in
      let (res, st) = create_job (web_job id req mem walltime now) w.engine.store in
      (
        elim res [ ok _ ↦ created id | err e ↦ refused 500 "submit job failed" ],
        set_store p s cfg st (issue p s cfg w),
      )

  unfoldable pub web_submit :
      Option SubmitReq → Time → Server p s cfg → Answer String × Server p s cfg
  unfolding create_from parse_size parse_walltime trim_space
  web_submit none now w = (refused 400 "invalid JSON body", w)
  web_submit (some req) now w =
      if is_empty (trim_space req.command)
      then (refused 400 "command is required", w)
      else elim (parse_size p req.mem) [
        | err e ↦ (refused 400 (concat ("invalid mem: " ∷ e ∷ [])), w)
        | ok mem ↦ elim (parse_walltime p req.walltime) [
          | err e ↦ (refused 400 (concat ("invalid walltime: " ∷ e ∷ [])), w)
          | ok walltime ↦ create_from req mem walltime now w
        ]
      ]

  unfoldable pub web_cancel : String → Time → Server p s cfg → Answer JobState × Server p s cfg
  web_cancel id now w =
      let (res, st) = cancel_job id now w.engine.store in
      (elim res [ ok state ↦ answered state | err e ↦ refused 404 e ], set_store p s cfg st w)

  unfoldable pub web_list_jobs : String → String → Server p s cfg → Answer (List JobJson)
  unfolding job_to_json trim_space
  web_list_jobs state owner w =
      list_answer "list jobs failed" job_to_json
        (list_jobs (p.to_upper (trim_space state)) (trim_space owner) w.engine.store)

  unfoldable pub web_get_job : String → Server p s cfg → Answer JobJson
  unfolding job_to_json
  web_get_job id w = elim (get_job id w.engine.store) [
    | err e ↦ refused 500 "get job failed"
    | ok found ↦ elim found [
      | none ↦ refused 404 "job not found"
      | some j ↦ answered (job_to_json j)
    ]
  ]

  unfoldable pub web_list_nodes : Server p s cfg → Answer (List (NodeJson p))
  unfolding node_to_json snapshot_of
  web_list_nodes w =
      list_answer "list nodes failed" (λ n. node_to_json p n (snapshot_of p n.id w.metrics))
        (list_nodes w.engine.store)

  unfoldable pub web_list_events : String → Server p s cfg → Answer (List EventJson)
  unfolding event_to_json query_int
  web_list_events limit w =
      list_answer "list events failed" event_to_json
        (list_events (pos (query_int limit 100)) w.engine.store)

  unfoldable pub web_list_notifications : String → Server p s cfg → Answer (List NotifJson)
  unfolding notif_to_json query_int
  web_list_notifications limit w =
      list_answer "list notifications failed" notif_to_json
        (list_notifications (pos (query_int limit 100)) w.engine.store)
