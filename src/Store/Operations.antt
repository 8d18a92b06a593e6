-- ===== src/Store/Operations.antt =====
-- Every sequence of statements moves the jobs of the table along the diagram of their states.
use mathlib.Core.Path.{subst⁻¹}
use psychic_funicular.Base.{
  ◌≤◌, ◌≡◌, refl, true, false, ◌⊎◌, ◌++◌, ◌&&◌, String, List, [], ◌∷◌, inl, inr, arith, Bool-cases,
  Option-cases, All-map, any, find,
}
use psychic_funicular.Base.Int.{ℤ}
use psychic_funicular.Time.{Time}
use psychic_funicular.Model.{
  Job, JobState, pending, assigned, running, is_terminal_state, AllocDevice,
}
use psychic_funicular.Store.Rows.{JobRow, job_row, unix_of, Db}
use psychic_funicular.Store.Jobs.{
  has_id, in_state, has_high_bit, create_job, can_assign, assign_row, assign_job, mark_job_running,
  finish_job, cancel_row, cancel_job,
}
use psychic_funicular.Store.Lifecycle.{
  assign, launch, withdraw, stop_assigned, stop_running, report, Moves, stays, moves, Step, Evolves,
  Evolves-refl, Evolves-trans, Step-Evolves, Step-refl, Step-append, Step-update_where,
  Step-update_all, in_state-eq,
}
use psychic_funicular.Store.Keys.{
  UniqueJobs, count_id, same_row, count_id-update_where, UniqueJobs-append,
}

-- The statements that write the table of jobs. A job is submitted PENDING, and finished in a terminal
-- state, as the handlers do.
pub data JobOp : Type 0 where
  submit : (j : Job) → j.state ≡ pending → JobOp
  place : (id node_id node_name : String) → List AllocDevice → JobOp
  run : (id : String) → Time → JobOp
  finish :
      (id : String) (state : JobState) → is_terminal_state state ≡ true → ℤ → String → Time → JobOp
  cancel : (id : String) → Time → JobOp

unfoldable pub apply : JobOp → Db → Db
apply (submit j h) db = (create_job j db).1
apply (place id node_id node_name devs) db = (assign_job id node_id node_name devs db).1
apply (run id t) db = (mark_job_running id t db).1
apply (finish id state h code reason t) db = (finish_job id state code reason t db).1
apply (cancel id t) db = (cancel_job id t db).1

unfoldable pub apply_all : List JobOp → Db → Db
apply_all [] db = db
apply_all (op ∷ ops) db = apply_all ops (apply op db)

cancel_row-Moves :
    (s : JobState) (now : Time) (r : JobRow) → r.state ≡ s → Moves r (cancel_row s now r)
cancel_row-Moves pending now r h = moves refl (rw h withdraw)
cancel_row-Moves assigned now r h = moves refl (rw h stop_assigned)
cancel_row-Moves running now r h = moves refl (rw h stop_running)
cancel_row-Moves _ now r h = stays

-- A job is refused, or its row is added and its id is new.
pub create_job-cases :
    (j : Job) (db : Db)
    → ((create_job j db).1 ≡ db)
      ⊎ ((any (has_id j.id) db.jobs ≡ false)
          × ((create_job j db).1 ≡ record db { jobs = db.jobs ++ job_row j ∷ [] }))
unfolding create_job
create_job-cases j db = elim (Bool-cases (has_high_bit j.req_mem_bytes)) [
  | inl h ↦ rw h (inl refl)
  | inr h ↦ elim (Bool-cases (any (has_id j.id) db.jobs)) [
    | inl e ↦ rw (h, e) (inl refl)
    | inr e ↦ rw h (inr (e, rw e refl))
  ]
]

create_job-Step : (j : Job) → j.state ≡ pending → (db : Db) → Step db.jobs (create_job j db).1.jobs
unfolding job_row
create_job-Step j h db = elim (create_job-cases j db) [
  | inl e ↦ subst⁻¹ Steps e (Step-refl db.jobs)
  | inr (_, e) ↦ subst⁻¹ Steps e (Step-append db.jobs (job_row j) h)
]
  where
    Steps : Db → Type 0
    Steps db' = Step db.jobs db'.jobs

assign_job-Step :
    (id node_id node_name : String) (devs : List AllocDevice) (db : Db)
    → Step db.jobs (assign_job id node_id node_name devs db).1.jobs
unfolding assign_job
assign_job-Step id node_id node_name devs db =
    Step-update_all (can_assign id) (assign_row node_id node_name devs)
      (λ r h. moves refl (rw (in_state-eq pending r (ground (arith, h))) assign)) db.jobs

mark_job_running-Step :
    (id : String) (t : Time) (db : Db) → Step db.jobs (mark_job_running id t db).1.jobs
unfolding mark_job_running
mark_job_running-Step id t db =
    Step-update_all _ _ (λ r h. moves refl (rw (in_state-eq assigned r (ground (arith, h))) launch))
      db.jobs

finish_job-Step :
    (id : String) (s : JobState) (code : ℤ) (reason : String) (t : Time) (db : Db)
    → is_terminal_state s ≡ true
    → Step db.jobs (finish_job id s code reason t db).1.jobs
unfolding finish_job
finish_job-Step id s code reason t db h =
    Step-update_all (has_id id) _ (λ r _. moves refl (report h)) db.jobs

cancel_job-Step :
    (id : String) (t : Time) (db : Db)
    → UniqueJobs db.jobs
    → Step db.jobs (cancel_job id t db).1.jobs
unfolding cancel_job
cancel_job-Step id t db u = elim (Option-cases (find (has_id id) db.jobs)) [
  | inl e ↦ rw (e, cancel_job) (Step-refl db.jobs)
  | inr (r, e) ↦
      rw (e, cancel_job)
        (Step-update_where (has_id id) (cancel_row r.state t) db.jobs (
          All-map (λ x same h. cancel_row-Moves r.state t x (same h)) db.jobs
            (same_row id db.jobs r e (u id))))
]

pub cancel_row-id : (s : JobState) (t : Time) (r : JobRow) → (cancel_row s t r).id ≡ r.id
cancel_row-id pending t r = refl
cancel_row-id assigned t r = refl
cancel_row-id running t r = refl
cancel_row-id _ t r = refl

cancel_job-count :
    (id : String) (t : Time) (db : Db) (k : String)
    → UniqueJobs db.jobs
    → count_id k (cancel_job id t db).1.jobs ≤ 1
unfolding cancel_job
cancel_job-count id t db k u = elim (Option-cases (find (has_id id) db.jobs)) [
  | inl e ↦ rw (e, cancel_job) (u k)
  | inr (r, e) ↦
      rw (e, cancel_job)
        (rw
          (count_id-update_where k (has_id id) (cancel_row r.state t) db.jobs
            (cancel_row-id r.state t))
          (u k))
]

create_job-UniqueJobs :
    (j : Job) (db : Db) → UniqueJobs db.jobs → UniqueJobs (create_job j db).1.jobs
unfolding job_row
create_job-UniqueJobs j db u = elim (create_job-cases j db) [
  | inl e ↦ subst⁻¹ (λ (d : Db). UniqueJobs d.jobs) e u
  | inr (new, e) ↦
      subst⁻¹ (λ (d : Db). UniqueJobs d.jobs) e (UniqueJobs-append db.jobs (job_row j) new u)
]

pub apply-UniqueJobs : (op : JobOp) (db : Db) → UniqueJobs db.jobs → UniqueJobs (apply op db).jobs
unfolding apply create_job assign_job mark_job_running finish_job job_row
apply-UniqueJobs (submit j h) db u k = create_job-UniqueJobs j db u k
apply-UniqueJobs (place id node_id node_name devs) db u k =
    rw
      (count_id-update_where k (can_assign id) (assign_row node_id node_name devs) db.jobs
        (λ r. refl))
      (u k)
apply-UniqueJobs (run id t) db u k =
    rw
      (count_id-update_where k (λ r. has_id id r && in_state assigned r)
        (λ r. record r { state = running; start_at = unix_of t }) db.jobs (λ r. refl))
      (u k)
apply-UniqueJobs (finish id s h code reason t) db u k =
    rw
      (count_id-update_where k (has_id id)
        (λ r. record r { state = s; exit_code = code; reason = reason; end_at = unix_of t }) db.jobs
        (λ r. refl))
      (u k)
apply-UniqueJobs (cancel id t) db u k = cancel_job-count id t db k u

pub apply-Step : (op : JobOp) (db : Db) → UniqueJobs db.jobs → Step db.jobs (apply op db).jobs
unfolding apply
apply-Step (submit j h) db u = create_job-Step j h db
apply-Step (place id node_id node_name devs) db u = assign_job-Step id node_id node_name devs db
apply-Step (run id t) db u = mark_job_running-Step id t db
apply-Step (finish id s h code reason t) db u = finish_job-Step id s code reason t db h
apply-Step (cancel id t) db u = cancel_job-Step id t db u

-- Each statement of a sequence takes the table by one step.
abbrev pub Traced : List JobOp → Db → Type 0
Traced [] db = Unit
Traced (op ∷ ops) db = Step db.jobs (apply op db).jobs × Traced ops (apply op db)

-- From a table with one row for an id, every sequence of statements leaves a table with one row for an
-- id. Each statement leaves a row as it is, or takes its state along one edge of the diagram and keeps all
-- that was submitted: id, name, owner, partition, priority, command, environment, directory, cores, memory,
-- devices and their type, walltime and time. A statement adds one row at most, behind the others and
-- PENDING. So each job that was there is still there after the sequence, at the same place and with the
-- same submission, in a state that the diagram reaches from the old one.
pub jobs_follow_lifecycle :
    (ops : List JobOp) (db : Db)
    → UniqueJobs db.jobs
    → UniqueJobs (apply_all ops db).jobs × Traced ops db × Evolves db.jobs (apply_all ops db).jobs
unfolding apply_all
jobs_follow_lifecycle [] db u = (u, tt, Evolves-refl db.jobs)
jobs_follow_lifecycle (op ∷ ops) db u =
    let (u', t, e) = jobs_follow_lifecycle ops (apply op db) (apply-UniqueJobs op db u) in
    let first = apply-Step op db u in (u', (first, t), Evolves-trans (Step-Evolves first) e)
