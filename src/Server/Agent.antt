-- ===== src/Server/Agent.antt =====
-- agentsvc.go and agentjobs.go: the calls of an agent. Each handler is given the time it reads.
use psychic_funicular.Base.{
  Bool, true, false, not, String, Option, none, some, List, [], ◌∷◌, map, if◌then◌else◌, str_eq,
}
use psychic_funicular.Base.Int.{ℤ}
use psychic_funicular.Platform.{Platform}
use psychic_funicular.Time.{Time}
use psychic_funicular.Model.{Job, JobState, assigned, cancelling, cancelled, same_state}
use psychic_funicular.Format.{concat}
use psychic_funicular.Store.Api.{Store, Result, ok, err}
use psychic_funicular.Notify.Engine.{Config, Engine, emit}
use psychic_funicular.Notify.Watched.{Snapshot, put}
use psychic_funicular.Server.Convert.{
  Resources, resources_from_proto, node_from_snapshot, assignment_to_proto,
}
use psychic_funicular.Server.State.{
  Reply, reply, invalid_argument, internal, Server, new_id, issue, set_store, append_log,
}
use psychic_funicular.Server.Messages.{
  RegisterRequest, Beat, Poll, StatusRequest, bare_node, job_event, Change, starts, ends, unknown,
  change_of,
}

module _ (p : Platform) (s : Store) (cfg : Config) where
  open s use {
    State, register_node, heartbeat, get_node, list_jobs_by_node_state, mark_job_running,
    finish_job, get_job,
  }

  -- `RegisterNode`, the peer's address and the time given.
  unfoldable pub register_handler :
      RegisterRequest → String → Time → Server p s cfg → Reply String × Server p s cfg
  unfolding resources_from_proto
  register_handler req addr now w =
      let n =
        resources_from_proto
          (record (bare_node (new_id p s cfg w)) {
            name = req.name;
            partition = req.partition;
            addr = addr;
            labels = req.labels;
            agent_version = req.agent_version;
            last_heartbeat = now;
          })
          req.resources in
      let (res, st) = register_node n w.engine.store in
      if str_eq req.name "" then (invalid_argument "node name is required", w) else (
        elim res [ ok id ↦ reply id | err e ↦ internal "register node failed" ],
        set_store p s cfg st (issue p s cfg w),
      )

  unfoldable pub heartbeat_handler :
      String → Option Resources → Time → Server p s cfg → Reply Beat × Server p s cfg
  unfolding resources_from_proto
  heartbeat_handler node_id resources now w =
      let (res, st) =
        heartbeat (resources_from_proto (bare_node node_id) resources) now w.engine.store in
      if str_eq node_id "" then (invalid_argument "node_id is required", w) else (
        elim res [
          | ok found ↦ reply (record { ok = found; should_reregister = not found })
          | err e ↦ internal "heartbeat failed"
        ],
        set_store p s cfg st w,
      )

  -- The answer to `ReportMetrics`, and the snapshot of a node that is known.
  unfoldable pub report_answer :
      String → Option (Snapshot p) → Result Bool → Server p s cfg → Reply Beat × Server p s cfg
  unfolding put
  report_answer node_id snap (err e) w = (internal "report metrics failed", w)
  report_answer node_id snap (ok true) w = (
    reply (record { ok = true; should_reregister = false }),
    record w { metrics = put p node_id snap w.metrics },
  )
  report_answer node_id snap (ok false) w =
      (reply (record { ok = false; should_reregister = true }), w)

  unfoldable pub report_metrics :
      String → Option (Snapshot p) → Time → Server p s cfg → Reply Beat × Server p s cfg
  unfolding node_from_snapshot report_answer
  report_metrics node_id snap now w =
      let (res, st) =
        heartbeat (node_from_snapshot p (bare_node node_id) snap) now w.engine.store in
      if str_eq node_id ""
      then (invalid_argument "node_id is required", w)
      else report_answer node_id snap res (set_store p s cfg st w)

  abbrev pub empty_poll : Bool → Poll
  empty_poll again = record { run = []; cancel_job_ids = []; should_reregister = again }

  abbrev pub poll_answer : Result (List Job) → Result (List Job) → Reply Poll
  poll_answer (err e) q = internal "list assigned failed"
  poll_answer (ok run) (err e) = internal "list cancelling failed"
  poll_answer (ok run) (ok cancel) = reply (record (empty_poll false) {
    run = map assignment_to_proto run;
    cancel_job_ids = map (λ (j : Job). j.id) cancel;
  })

  unfoldable pub poll_assignments : String → Server p s cfg → Reply Poll
  poll_assignments node_id w =
      let st = w.engine.store in
      let answer =
        poll_answer (list_jobs_by_node_state node_id assigned st)
          (list_jobs_by_node_state node_id cancelling st) in
      if str_eq node_id ""
      then invalid_argument "node_id is required"
      else elim (get_node node_id st) [
        | err e ↦ internal "lookup node failed"
        | ok found ↦ elim found [ none ↦ reply (empty_poll true) | some n ↦ answer ]
      ]

  -- The event of the job that was read; none if it cannot be read or is not there.
  unfoldable pub emit_found :
      String → JobState → ℤ → Time → Result (Option Job) → Engine s cfg → Engine s cfg
  unfolding job_event
  emit_found job_id state code now (err _) e = e
  emit_found job_id state code now (ok none) e = e
  emit_found job_id state code now (ok (some j)) e =
      emit s cfg (job_event j job_id state code) now e

  -- No event for a cancelled job.
  unfoldable pub emit_job_event : String → JobState → ℤ → Time → Engine s cfg → Engine s cfg
  unfolding emit_found
  emit_job_event job_id state code now e =
      if same_state state cancelled
      then e
      else emit_found job_id state code now (get_job job_id e.store) e

  abbrev pub set_engine : Engine s cfg → Server p s cfg → Server p s cfg
  set_engine e w = record w { engine = e }

  -- The answer to a job that ends, and its event.
  unfoldable pub end_answer :
      StatusRequest
      → JobState
      → Time
      → Result (Unit {0})
      → Server p s cfg
      → Reply (Unit {0}) × Server p s cfg
  unfolding emit_job_event
  end_answer req state now (err e) w = (internal "finish job failed", w)
  end_answer req state now (ok _) w =
      (reply tt, set_engine (emit_job_event req.job_id state req.exit_code now w.engine) w)

  -- The body of the `switch`, for a request with a job id.
  unfoldable pub change_job :
      StatusRequest → Change → Time → Server p s cfg → Reply (Unit {0}) × Server p s cfg
  unfolding end_answer
  change_job req starts now w =
      let (res, st) = mark_job_running req.job_id now w.engine.store in
      (
        elim res [ ok _ ↦ reply tt | err e ↦ internal "mark running failed" ],
        set_store p s cfg st w,
      )
  change_job req (ends state) now w =
      let (res, st) = finish_job req.job_id state req.exit_code req.reason now w.engine.store in
      end_answer req state now res (set_store p s cfg st w)
  change_job req unknown now w =
      (invalid_argument (concat ("unknown state " ∷ p.quote req.state ∷ [])), w)

  unfoldable pub update_job_status :
      StatusRequest → Time → Server p s cfg → Reply (Unit {0}) × Server p s cfg
  unfolding change_job change_of
  update_job_status req now w =
      if str_eq req.job_id ""
      then (invalid_argument "job_id is required", w)
      else change_job req (change_of req.state) now w

  unfoldable pub append_logs :
      String → String → String → Server p s cfg → Reply (Unit {0}) × Server p s cfg
  unfolding append_log
  append_logs dir job_id text w =
      let (res, logs) = append_log dir job_id text w.logs in
      if str_eq job_id "" then (invalid_argument "job_id is required", w) else (
        elim res [ ok _ ↦ reply tt | err e ↦ internal "append logs failed" ],
        record w { logs = logs },
      )
