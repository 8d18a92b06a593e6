-- ===== src/Agent/Executor.antt =====
-- executor.go: the table of running jobs. A thread of `run` is an id in the list of live runs; it
-- stores the function that cancels it when it begins, and leaves the table when it ends. Each step holds
-- the lock of the table.
use psychic_funicular.Base.{
  Bool, true, false, String, none, some, List, [], ◌∷◌, if◌then◌else◌, str_eq, str_mem, lookup,
  insert, delete,
}
use psychic_funicular.Server.Convert.{Assignment}
use psychic_funicular.Server.Messages.{Poll}

pub record RunningJob : Type 0 where
  pub has_cancel : Bool
  pub cancelled : Bool
  pub kill_reason : String

pub record Executor : Type 0 where
  pub running : List (String × RunningJob)
  pub live : List String

abbrev pub new_executor : Executor
new_executor = record { running = []; live = [] }

abbrev pub new_job : RunningJob
new_job = record { has_cancel = false; cancelled = false; kill_reason = "" }

-- The first reason stays.
unfoldable pub set_reason : String → RunningJob → RunningJob
set_reason r rj = record rj { kill_reason = if str_eq rj.kill_reason "" then r else rj.kill_reason }

-- A second start of a job that runs is ignored.
unfoldable pub start : String → Executor → Executor
unfolding lookup insert
start job_id e = elim (lookup job_id e.running) [
  | some rj ↦ e
  | none ↦ record { running = insert job_id new_job e.running; live = job_id ∷ e.live }
]

-- The context of a run is cancelled if it has stored its function.
unfoldable pub cancel_job : RunningJob → RunningJob
unfolding set_reason
cancel_job rj = record (set_reason "cancel" rj) {
  cancelled = if rj.has_cancel then true else rj.cancelled;
}

unfoldable pub cancel : String → Executor → Executor
unfolding lookup insert cancel_job
cancel job_id e = elim (lookup job_id e.running) [
  | none ↦ e
  | some rj ↦ record e { running = insert job_id (cancel_job rj) e.running }
]

-- The thread of a run stores its function.
unfoldable pub begin : String → Executor → Executor
unfolding lookup insert
begin job_id e = elim (lookup job_id e.running) [
  | none ↦ e
  | some rj ↦ record e { running = insert job_id (record rj { has_cancel = true }) e.running }
]

abbrev pub without : String → List String → List String
without s [] = []
without s (t ∷ ts) = let rest = without s ts in if str_eq t s then ts else t ∷ rest

-- The deferred function of a live run.
unfoldable pub end : String → Executor → Executor
unfolding delete
end job_id e =
    if str_mem job_id e.live
    then record { running = delete job_id e.running; live = without job_id e.live }
    else e

unfoldable pub start_all : List Assignment → Executor → Executor
unfolding start
start_all [] e = e
start_all (a ∷ run) e = start_all run (start a.job_id e)

unfoldable pub cancel_all : List String → Executor → Executor
unfolding cancel
cancel_all [] e = e
cancel_all (id ∷ ids) e = cancel_all ids (cancel id e)

-- What `pollLoop` does with an answer.
unfoldable pub handle_poll : Poll → Executor → Executor
unfolding start_all cancel_all
handle_poll resp e = cancel_all resp.cancel_job_ids (start_all resp.run e)
