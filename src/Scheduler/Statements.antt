-- ===== src/Scheduler/Statements.antt =====
-- What the statements of the handlers do to the accounts of a node: they take nothing.
use mathlib.Core.Path.{subst⁻¹, subst}
use psychic_funicular.Base.{
  ℕ, ◌≤◌, ◌≡◌, refl, sym, Bool, true, false, ◌||◌, String, List, [], ◌∷◌, inl, inr, arith,
  if◌then◌else◌, Bool-cases, Option-cases, sum_of, sum_of-append, find, sort, str_lt, map,
}
use psychic_funicular.Time.{Time}
use psychic_funicular.Model.{
  Node, AllocDevice, Job, JobState, pending, assigned, running, completed, failed, cancelled,
  timeout, is_terminal_state, same_state,
}
use psychic_funicular.Store.Rows.{NodeRow, JobRow, Db, job_row, scan_job, scan_node, unix_of}
use psychic_funicular.Store.Jobs.{
  has_id, in_state, is_active, update_where, create_job, mark_job_running, finish_job, cancel_row,
  cancel_job, assign_job,
}
use psychic_funicular.Store.Operations.{
  create_job-cases, JobOp, submit, place, run, finish, cancel, apply,
}
use psychic_funicular.Scheduler.Account.{at_node}
use psychic_funicular.Scheduler.Resource.{count_held}
use psychic_funicular.Scheduler.Capacity.{
  cpu_capacity, cpus_held, mem_capacity, mem_held, device_capacity, device_held,
}
use psychic_funicular.Scheduler.Invariant.{NodeFits, active_jobs, listed_nodes, sum_of-active}

-- Assignments are made by passes only.
abbrev pub is_place : JobOp → Bool
is_place (place id node_id node_name devs) = true
is_place _ = false

-- What a row takes of a resource of a node, if its job is active.
abbrev weigh : (ℕ → ℕ → List AllocDevice → ℕ) → String → JobRow → ℕ
weigh taken id r =
    if is_active r then at_node id r.node_id (taken r.req_cpus r.req_mem_bytes r.devices) else 0

module _ (taken : ℕ → ℕ → List AllocDevice → ℕ) (id : String) where
  update_le :
      (p : JobRow → Bool) (f : JobRow → JobRow)
      → ((r : JobRow) → p r ≡ true → weigh taken id (f r) ≤ weigh taken id r)
      → (rows : List JobRow)
      → sum_of (weigh taken id) (update_where p f rows) ≤ sum_of (weigh taken id) rows
  unfolding update_where
  update_le p f h [] = omega arith
  update_le p f h (r ∷ rs) = elim (Bool-cases (p r)) [
    | inl e ↦ rw e (omega (arith, h r e, update_le p f h rs))
    | inr e ↦ rw e (omega (arith, update_le p f h rs))
  ]

  inactive_weighs_nothing : (r : JobRow) → is_active r ≡ false → weigh taken id r ≡ 0
  inactive_weighs_nothing r h = rw h refl

  inactive_le : (r r' : JobRow) → is_active r' ≡ false → weigh taken id r' ≤ weigh taken id r
  inactive_le r r' h = omega (arith, inactive_weighs_nothing r' h)

  cancel_row-le :
      (s : JobState) (now : Time) (r : JobRow)
      → weigh taken id (cancel_row s now r) ≤ weigh taken id r
  cancel_row-le pending now r = inactive_le r (cancel_row pending now r) refl
  cancel_row-le assigned now r = inactive_le r (cancel_row assigned now r) refl
  cancel_row-le running now r = inactive_le r (cancel_row running now r) refl
  cancel_row-le _ now r = omega arith

  terminal_inactive :
      (s : JobState)
      → is_terminal_state s ≡ true
      → (same_state s assigned || same_state s running) ≡ false
  terminal_inactive completed h = refl
  terminal_inactive failed h = refl
  terminal_inactive cancelled h = refl
  terminal_inactive timeout h = refl
  terminal_inactive _ h = absurd (ground (arith, h))

  launched_le :
      (t : Time) (r : JobRow)
      → in_state assigned r ≡ true
      → weigh taken id (record r { state = running; start_at = unix_of t }) ≤ weigh taken id r
  launched_le t r h = rw h (omega arith)

  create_job-le :
      (j : Job) (db : Db)
      → j.state ≡ pending
      → sum_of (weigh taken id) (create_job j db).1.jobs ≤ sum_of (weigh taken id) db.jobs
  unfolding job_row
  create_job-le j db h = elim (create_job-cases j db) [
    | inl e ↦ subst⁻¹ NoMore e (omega arith)
    | inr (_, e) ↦ subst⁻¹ NoMore e (
        omega (
          arith,
          sum_of-append (weigh taken id) db.jobs (job_row j ∷ []),
          inactive_weighs_nothing (job_row j) (rw h refl),
        ))
  ]
    where
      NoMore : Db → Type 0
      NoMore db' = sum_of (weigh taken id) db'.jobs ≤ sum_of (weigh taken id) db.jobs

  cancel_job-le :
      (job_id : String) (now : Time) (db : Db)
      → sum_of (weigh taken id) (cancel_job job_id now db).1.jobs ≤ sum_of (weigh taken id) db.jobs
  unfolding cancel_job
  cancel_job-le job_id now db = elim (Option-cases (find (has_id job_id) db.jobs)) [
    | inl e ↦ rw (e, cancel_job) (omega arith)
    | inr (r, e) ↦
        rw (e, cancel_job)
          (update_le (has_id job_id) (cancel_row r.state now) (λ x _. cancel_row-le r.state now x)
            db.jobs)
  ]

  apply-le :
      (op : JobOp) (db : Db)
      → is_place op ≡ false
      → sum_of (weigh taken id) (apply op db).jobs ≤ sum_of (weigh taken id) db.jobs
  unfolding apply mark_job_running finish_job
  apply-le (submit j h) db n = create_job-le j db h
  apply-le (place job_id node_id node_name devs) db n = absurd (ground (arith, n))
  apply-le (run job_id t) db n = update_le _ _ (λ r h. launched_le t r (ground (arith, h))) db.jobs
  apply-le (finish job_id s h code reason t) db n =
      update_le (has_id job_id) _
        (λ r _.
          inactive_le r
            (record r { state = s; exit_code = code; reason = reason; end_at = unix_of t })
            (terminal_inactive s h))
        db.jobs
  apply-le (cancel job_id now) db n = cancel_job-le job_id now db

  -- What the active jobs take follows the rows.
  held_le :
      (capacity : ℕ) (db db' : Db)
      → sum_of (weigh taken id) db'.jobs ≤ sum_of (weigh taken id) db.jobs
      → sum_of
          (λ (j : Job). at_node id j.node_id (taken j.req_cpus j.req_mem_bytes j.devices))
          (active_jobs db)
        ≤ capacity
      → sum_of
          (λ (j : Job). at_node id j.node_id (taken j.req_cpus j.req_mem_bytes j.devices))
          (active_jobs db')
        ≤ capacity
  unfolding scan_job
  held_le capacity db db' le fits = omega (
    arith,
    le,
    fits,
    sum_of-active (λ (j : Job). at_node id j.node_id (taken j.req_cpus j.req_mem_bytes j.devices))
        db.jobs,
    sum_of-active (λ (j : Job). at_node id j.node_id (taken j.req_cpus j.req_mem_bytes j.devices))
        db'.jobs,
  )

cancel_job-nodes :
    (job_id : String) (now : Time) (db : Db) → (cancel_job job_id now db).1.nodes ≡ db.nodes
unfolding cancel_job
cancel_job-nodes job_id now db = elim (Option-cases (find (has_id job_id) db.jobs)) [
  | inl e ↦ rw (e, cancel_job) refl
  | inr (r, e) ↦ rw (e, cancel_job) refl
]

apply-nodes : (op : JobOp) (db : Db) → (apply op db).nodes ≡ db.nodes
unfolding apply create_job mark_job_running finish_job assign_job
apply-nodes (submit j h) db = ground arith
apply-nodes (place job_id node_id node_name devs) db = refl
apply-nodes (run job_id t) db = refl
apply-nodes (finish job_id s h code reason t) db = refl
apply-nodes (cancel job_id now) db = cancel_job-nodes job_id now db

abbrev nodes_of : List NodeRow → List Node
nodes_of rows = map scan_node (sort (λ (a b : NodeRow). str_lt a.name b.name) rows)

pub statement_keeps :
    (op : JobOp) (db : Db) (id : String)
    → is_place op ≡ false
    → NodeFits id db
    → NodeFits id (apply op db)
statement_keeps op db id n h =
    let same = sym (apply-nodes op db) in
    record {
      cpus_fit =
          subst (λ rows. cpus_held id (active_jobs (apply op db)) ≤ cpu_capacity id (nodes_of rows))
            same
            (held_le (λ c m ds. c) id (cpu_capacity id (listed_nodes db)) db (apply op db)
              (apply-le (λ c m ds. c) id op db n) h.cpus_fit);
      mem_fit =
          subst (λ rows. mem_held id (active_jobs (apply op db)) ≤ mem_capacity id (nodes_of rows))
            same
            (held_le (λ c m ds. m) id (mem_capacity id (listed_nodes db)) db (apply op db)
              (apply-le (λ c m ds. m) id op db n) h.mem_fit);
      devices_fit = λ k.
          subst
            (λ rows.
              device_held id k (active_jobs (apply op db)) ≤ device_capacity id k (nodes_of rows))
            same
            (held_le (λ c m ds. count_held k ds) id (device_capacity id k (listed_nodes db)) db
              (apply op db) (apply-le (λ c m ds. count_held k ds) id op db n) (h.devices_fit k));
    }
