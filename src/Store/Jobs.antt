-- ===== src/Store/Jobs.antt =====
-- sqlite_jobs.go: the statements on the table of jobs, whose primary key is `id`.
use psychic_funicular.Base.{
  ℕ, Bool, not, ltb, ◌&&◌, ◌||◌, String, Option, none, some, List, [], ◌∷◌, ◌++◌, map, any, find,
  keep, if◌then◌else◌, str_eq, str_lt, sort,
}
use psychic_funicular.Base.Int.{ℤ, ltb_ℤ, eqb_ℤ}
use psychic_funicular.Time.{Time, unix}
use psychic_funicular.Model.{
  Job, JobState, pending, assigned, running, cancelling, cancelled, AllocDevice, state_name,
  same_state,
}
use psychic_funicular.Store.Api.{Result, ok, err}
use psychic_funicular.Store.Rows.{JobRow, job_row, scan_job, unix_of, Db}

abbrev pub has_id : String → JobRow → Bool
has_id id r = str_eq r.id id

abbrev pub in_state : JobState → JobRow → Bool
in_state s r = same_state r.state s

-- UPDATE … WHERE
unfoldable pub update_where : (JobRow → Bool) → (JobRow → JobRow) → List JobRow → List JobRow
update_where p f [] = []
update_where p f (r ∷ rs) = (if p r then f r else r) ∷ update_where p f rs

-- database/sql takes no uint64 whose high bit is set.
abbrev pub has_high_bit : ℕ → Bool
has_high_bit n = not (ltb n 9223372036854775808)

unfoldable pub create_job : Job → Db → Result (Unit {0}) × Db
create_job j db =
    if has_high_bit j.req_mem_bytes
    then (
      err (
          "create job: sql: converting argument $11 type: uint64 values with high bit set are not supported"),
      db,
    )
    else if any (has_id j.id) db.jobs
    then (err "create job: UNIQUE constraint failed", db)
    else (ok tt, record db { jobs = db.jobs ++ job_row j ∷ [] })

unfoldable pub get_job : String → Db → Result (Option Job)
get_job id db = elim (find (has_id id) db.jobs) [ some r ↦ ok (some (scan_job r)) | none ↦ ok none ]

-- `queryJobs` with an ORDER BY clause.
unfoldable pub query_jobs : (JobRow → Bool) → (JobRow → JobRow → Bool) → Db → List Job
query_jobs p lt db = map scan_job (sort lt (keep p db.jobs))

-- An empty filter lets every row through.
unfoldable pub list_jobs : String → String → Db → Result (List Job)
list_jobs state owner db = ok (
    query_jobs
      (λ r.
        (str_eq state "" || str_eq (state_name r.state) state)
        && (str_eq owner "" || str_eq r.owner owner))
      (λ a b. ltb_ℤ b.submit_at a.submit_at || eqb_ℤ a.submit_at b.submit_at && str_lt a.id b.id)
      db)

unfoldable pub list_pending_jobs : Db → Result (List Job)
list_pending_jobs db = ok (
    query_jobs (in_state pending)
      (λ a b.
        ltb_ℤ b.priority a.priority
        || eqb_ℤ a.priority b.priority
          && (ltb_ℤ a.submit_at b.submit_at || eqb_ℤ a.submit_at b.submit_at && str_lt a.id b.id))
      db)

abbrev pub is_active : JobRow → Bool
is_active r = in_state assigned r || in_state running r

-- No ORDER BY: the rows as they stand.
unfoldable pub list_active_jobs : Db → Result (List Job)
list_active_jobs db = ok (map scan_job (keep is_active db.jobs))

unfoldable pub list_jobs_by_node_state : String → JobState → Db → Result (List Job)
list_jobs_by_node_state node_id state db = ok (
    query_jobs (λ r. str_eq r.node_id node_id && in_state state r)
      (λ a b. ltb_ℤ a.submit_at b.submit_at || eqb_ℤ a.submit_at b.submit_at && str_lt a.id b.id)
      db)

abbrev pub can_assign : String → JobRow → Bool
can_assign id r = has_id id r && in_state pending r

abbrev pub assign_row : String → String → List AllocDevice → JobRow → JobRow
assign_row node_id node_name devices r = record r {
  state = assigned;
  node_id = node_id;
  node_name = node_name;
  devices = devices;
}

-- No affected row is an error.
unfoldable pub assign_job :
    String → String → String → List AllocDevice → Db → Result (Unit {0}) × Db
assign_job id node_id node_name devices db = (
  if any (can_assign id) db.jobs then ok tt else err "assign job: not in PENDING state",
  record db { jobs = update_where (can_assign id) (assign_row node_id node_name devices) db.jobs },
)

unfoldable pub mark_job_running : String → Time → Db → Result (Unit {0}) × Db
mark_job_running id t db = (
  ok tt,
  record db {
    jobs =
        update_where (λ r. has_id id r && in_state assigned r)
          (λ r. record r { state = running; start_at = unix_of t }) db.jobs;
  },
)

unfoldable pub finish_job : String → JobState → ℤ → String → Time → Db → Result (Unit {0}) × Db
finish_job id state exit_code reason t db = (
  ok tt,
  record db {
    jobs =
        update_where (has_id id)
          (λ r. record r {
            state = state;
            exit_code = exit_code;
            reason = reason;
            end_at = unix_of t;
          })
          db.jobs;
  },
)

-- The `switch` of `CancelJob`: the new state, and the row under the statement that is run.
abbrev pub cancel_state : JobState → JobState
cancel_state pending = cancelled
cancel_state assigned = cancelling
cancel_state running = cancelling
cancel_state s = s

abbrev pub cancel_row : JobState → Time → JobRow → JobRow
cancel_row pending now r = record r { state = cancelled; end_at = unix now }
cancel_row assigned now r = record r { state = cancelling }
cancel_row running now r = record r { state = cancelling }
cancel_row s now r = r

unfoldable pub cancel_job : String → Time → Db → Result JobState × Db
cancel_job id now db = elim (find (has_id id) db.jobs) [
  | none ↦ (err "job not found", db)
  | some r ↦ (
    ok (cancel_state r.state),
    record db { jobs = update_where (has_id id) (cancel_row r.state now) db.jobs },
  )
]
