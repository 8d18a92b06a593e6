-- ===== src/Scheduler/History.antt =====
-- The capacity of a node over a history: passes of the scheduler between the statements of the handlers.
use psychic_funicular.Base.{◌≡◌, false, String, List, [], ◌∷◌}
use psychic_funicular.Platform.{Platform}
use psychic_funicular.Time.{Time}
use psychic_funicular.Store.Rows.{Db}
use psychic_funicular.Store.Jobs.{assign_job, list_active_jobs, list_pending_jobs}
use psychic_funicular.Store.Keys.{UniqueJobs}
use psychic_funicular.Store.Operations.{JobOp, place, apply, apply-UniqueJobs}
use psychic_funicular.Store.Sqlite.{sqlite}
use psychic_funicular.Scheduler.Plan.{Decision, Policy}
use psychic_funicular.Scheduler.Pass.{assign_all, pass}
use psychic_funicular.Store.Nodes.{list_nodes}
use psychic_funicular.Scheduler.Invariant.{NodeFits, pass_keeps_capacity}
use psychic_funicular.Scheduler.Statements.{is_place, statement_keeps}

assign_all-UniqueJobs :
    (ds : List Decision) (db : Db) → UniqueJobs db.jobs → UniqueJobs (assign_all sqlite ds db).jobs
unfolding assign_all apply
assign_all-UniqueJobs [] db u = u
assign_all-UniqueJobs (d ∷ ds) db u =
    assign_all-UniqueJobs ds (assign_job d.job_id d.node_id d.node_name d.devices db).1
      (apply-UniqueJobs (place d.job_id d.node_id d.node_name d.devices) db u)

pass-UniqueJobs :
    (p : Platform) (now : Time) (policy : Policy p) (db : Db)
    → UniqueJobs db.jobs
    → UniqueJobs (pass sqlite p now policy db).jobs
unfolding pass list_nodes list_active_jobs list_pending_jobs
pass-UniqueJobs p now policy db u = assign_all-UniqueJobs _ db u

-- One turn of a history: a pass of the scheduler, or a statement of a handler that does not assign.
pub data Turn (p : Platform) : Type 0 where
  passes : Time → Policy p → Turn p
  states : (op : JobOp) → is_place op ≡ false → Turn p

module _ (p : Platform) where
  unfoldable pub take_turn : Turn p → Db → Db
  take_turn (passes now policy) db = pass sqlite p now policy db
  take_turn (states op n) db = apply op db

  unfoldable pub take_turns : List (Turn p) → Db → Db
  take_turns [] db = db
  take_turns (t ∷ ts) db = take_turns ts (take_turn t db)

  take_turn-keeps :
      (t : Turn p) (db : Db) (id : String)
      → UniqueJobs db.jobs
      → NodeFits id db
      → UniqueJobs (take_turn t db).jobs × NodeFits id (take_turn t db)
  unfolding take_turn
  take_turn-keeps (passes now policy) db id u h =
      (pass-UniqueJobs p now policy db u, pass_keeps_capacity p now policy db id u h)
  take_turn-keeps (states op n) db id u h = (apply-UniqueJobs op db u, statement_keeps op db id n h)

  -- From a database with unique job ids in which the jobs that are assigned or running on a node take no
  -- more than its cores, its memory and its devices, every history of scheduling passes, submissions,
  -- starts, ends and cancellations keeps it so; nodes neither come nor change meanwhile.
  pub history_keeps_capacity :
      (ts : List (Turn p)) (db : Db) (id : String)
      → UniqueJobs db.jobs
      → NodeFits id db
      → NodeFits id (take_turns ts db)
  unfolding take_turns
  history_keeps_capacity [] db id u h = h
  history_keeps_capacity (t ∷ ts) db id u h =
      let (u', h') = take_turn-keeps t db id u h in
      history_keeps_capacity ts (take_turn t db) id u' h'
