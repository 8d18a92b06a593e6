-- ===== src/Server/Effects.antt =====
-- What each handler does to the table of jobs.
use mathlib.Core.Path.{subst⁻¹}
use psychic_funicular.Base.{
  ◌≡◌, refl, Bool, true, false, String, Option, none, some, List, inl, inr, arith, Bool-cases,
  str_eq,
}
use psychic_funicular.Base.Int.{ℤ}
use psychic_funicular.Platform.{Platform}
use psychic_funicular.Time.{Time}
use psychic_funicular.Model.{Job, is_terminal_state, JobState, same_state, cancelled}
use psychic_funicular.Store.Api.{Result, ok, err}
use psychic_funicular.Store.Rows.{Db, JobRow}
use psychic_funicular.Store.Nodes.{heartbeat}
use psychic_funicular.Store.Jobs.{get_job, finish_job}
use psychic_funicular.Store.Sqlite.{sqlite}
use psychic_funicular.Store.Lifecycle.{Step, Step-refl}
use psychic_funicular.Store.Keys.{UniqueJobs}
use psychic_funicular.Store.Operations.{
  JobOp, submit, run, finish, cancel, apply, apply-UniqueJobs, apply-Step,
}
use psychic_funicular.Notify.Engine.{Config, Engine}
use psychic_funicular.Notify.Watched.{Snapshot}
use psychic_funicular.Server.Convert.{Resources, node_from_snapshot}
use psychic_funicular.Server.State.{Server, new_id, set_store}
use psychic_funicular.Server.Messages.{
  RegisterRequest, StatusRequest, Change, starts, ends, unknown, change_of, bare_node, job_event,
}
use psychic_funicular.Server.Agent.{
  register_handler, heartbeat_handler, report_metrics, report_answer, emit_found, end_answer,
  emit_job_event, change_job, update_job_status,
}
use psychic_funicular.Server.Cluster.{SubmitRequest, submit_job, cancel_handler, submitted_job}
use psychic_funicular.Server.Untouched.{emit-jobs, register_node-jobs}

-- The table of jobs after a step: its ids are unique, and it has taken one step.
abbrev pub Follows : List JobRow → List JobRow → Type 0
Follows rows rows' = UniqueJobs rows' × Step rows rows'

same_jobs-Follows : (rows rows' : List JobRow) → rows' ≡ rows → UniqueJobs rows → Follows rows rows'
same_jobs-Follows rows rows' e u =
    (subst⁻¹ UniqueJobs e u, subst⁻¹ (λ rs. Step rows rs) e (Step-refl rows))

op-Follows :
    (op : JobOp) (db : Db) (rows : List JobRow)
    → rows ≡ (apply op db).jobs
    → UniqueJobs db.jobs
    → Follows db.jobs rows
op-Follows op db rows e u = (
  subst⁻¹ UniqueJobs e (apply-UniqueJobs op db u),
  subst⁻¹ (λ rs. Step db.jobs rs) e (apply-Step op db u),
)

-- What `UpdateJobStatus` ends a job with is a terminal state.
change_of-terminal :
    (text : String) (state : JobState)
    → change_of text ≡ ends state
    → is_terminal_state state ≡ true
unfolding change_of
change_of-terminal text state h = ground (arith, h)

module _ (p : Platform) (cfg : Config) where
  emit_found-jobs :
      (id : String) (state : JobState) (code : ℤ) (now : Time) (found : Result (Option Job))
      (e : Engine sqlite cfg)
      → (emit_found p sqlite cfg id state code now found e).store.jobs ≡ e.store.jobs
  unfolding emit_found
  emit_found-jobs id state code now (err _) e = refl
  emit_found-jobs id state code now (ok none) e = refl
  emit_found-jobs id state code now (ok (some j)) e =
      emit-jobs cfg (job_event j id state code) now e

  emit_job_event-jobs :
      (id : String) (state : JobState) (code : ℤ) (now : Time) (e : Engine sqlite cfg)
      → (emit_job_event p sqlite cfg id state code now e).store.jobs ≡ e.store.jobs
  unfolding emit_job_event
  emit_job_event-jobs id state code now e = elim (Bool-cases (same_state state cancelled)) [
    | inl c ↦ rw c refl
    | inr c ↦ rw c (emit_found-jobs id state code now (get_job id e.store) e)
  ]

  change-Follows :
      (req : StatusRequest) (c : Change) (now : Time) (w : Server p sqlite cfg)
      → ((state : JobState) → c ≡ ends state → is_terminal_state state ≡ true)
      → UniqueJobs w.engine.store.jobs
      → Follows w.engine.store.jobs (change_job p sqlite cfg req c now w).1.engine.store.jobs
  unfolding change_job apply finish_job end_answer
  change-Follows req starts now w t u = op-Follows (run req.job_id now) w.engine.store _ refl u
  change-Follows req (ends state) now w t u =
      op-Follows (finish req.job_id state (t state refl) req.exit_code req.reason now)
        w.engine.store _ (emit_job_event-jobs req.job_id state req.exit_code now _) u
  change-Follows req unknown now w t u = same_jobs-Follows w.engine.store.jobs _ refl u

  pub update-Follows :
      (req : StatusRequest) (now : Time) (w : Server p sqlite cfg)
      → UniqueJobs w.engine.store.jobs
      → Follows w.engine.store.jobs (update_job_status p sqlite cfg req now w).1.engine.store.jobs
  unfolding update_job_status
  update-Follows req now w u = elim (Bool-cases (str_eq req.job_id "")) [
    | inl e ↦ rw e (same_jobs-Follows w.engine.store.jobs _ refl u)
    | inr e ↦ rw e (change-Follows req (change_of req.state) now w (change_of-terminal req.state) u)
  ]

  pub submit-Follows :
      (req : SubmitRequest) (now : Time) (w : Server p sqlite cfg)
      → UniqueJobs w.engine.store.jobs
      → Follows w.engine.store.jobs (submit_job p sqlite cfg req now w).1.engine.store.jobs
  unfolding submit_job apply
  submit-Follows req now w u = elim (Bool-cases (str_eq req.command "")) [
    | inl e ↦ rw e (same_jobs-Follows w.engine.store.jobs _ refl u)
    | inr e ↦ rw e (
        op-Follows (submit (submitted_job (new_id p sqlite cfg w) req now) refl) w.engine.store _
          refl u)
  ]

  pub cancel-Follows :
      (id : String) (now : Time) (w : Server p sqlite cfg)
      → UniqueJobs w.engine.store.jobs
      → Follows w.engine.store.jobs (cancel_handler p sqlite cfg id now w).1.engine.store.jobs
  unfolding cancel_handler apply
  cancel-Follows id now w u = elim (Bool-cases (str_eq id "")) [
    | inl e ↦ rw e (same_jobs-Follows w.engine.store.jobs _ refl u)
    | inr e ↦ rw e (op-Follows (cancel id now) w.engine.store _ refl u)
  ]

  pub register-Follows :
      (req : RegisterRequest) (addr : String) (now : Time) (w : Server p sqlite cfg)
      → UniqueJobs w.engine.store.jobs
      → Follows w.engine.store.jobs
          (register_handler p sqlite cfg req addr now w).1.engine.store.jobs
  unfolding register_handler
  register-Follows req addr now w u = elim (Bool-cases (str_eq req.name "")) [
    | inl e ↦ rw e (same_jobs-Follows w.engine.store.jobs _ refl u)
    | inr e ↦ rw e (same_jobs-Follows w.engine.store.jobs _ (register_node-jobs _ w.engine.store) u)
  ]

  pub heartbeat-Follows :
      (id : String) (r : Option Resources) (now : Time) (w : Server p sqlite cfg)
      → UniqueJobs w.engine.store.jobs
      → Follows w.engine.store.jobs (heartbeat_handler p sqlite cfg id r now w).1.engine.store.jobs
  unfolding heartbeat_handler heartbeat
  heartbeat-Follows id r now w u = elim (Bool-cases (str_eq id "")) [
    | inl e ↦ rw e (same_jobs-Follows w.engine.store.jobs _ refl u)
    | inr e ↦ rw e (same_jobs-Follows w.engine.store.jobs _ refl u)
  ]

  report_answer-jobs :
      (id : String) (snap : Option (Snapshot p)) (res : Result Bool) (w : Server p sqlite cfg)
      → (report_answer p sqlite cfg id snap res w).1.engine.store.jobs ≡ w.engine.store.jobs
  unfolding report_answer
  report_answer-jobs id snap (err e) w = refl
  report_answer-jobs id snap (ok true) w = refl
  report_answer-jobs id snap (ok false) w = refl

  pub report-Follows :
      (id : String) (snap : Option (Snapshot p)) (now : Time) (w : Server p sqlite cfg)
      → UniqueJobs w.engine.store.jobs
      → Follows w.engine.store.jobs (report_metrics p sqlite cfg id snap now w).1.engine.store.jobs
  unfolding report_metrics heartbeat
  report-Follows id snap now w u = elim (Bool-cases (str_eq id "")) [
    | inl e ↦ rw e (same_jobs-Follows w.engine.store.jobs _ refl u)
    | inr e ↦ rw e (
        same_jobs-Follows w.engine.store.jobs _
          (report_answer-jobs id snap
            (heartbeat (node_from_snapshot p (bare_node id) snap) now w.engine.store).0
            (set_store p sqlite cfg
              (heartbeat (node_from_snapshot p (bare_node id) snap) now w.engine.store).1 w))
          u)
  ]
