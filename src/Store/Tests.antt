-- ===== src/Store/Tests.antt =====
-- The theorems on the store at a small database.
use psychic_funicular.Base.{
  ◌<◌, ◌≤◌, false, ◌^◌, str_eq, ◌+◌, ◌*◌, ◌≡◌, refl, true, String, some, List, [], ◌∷◌, ◌++◌, map,
  find, arith, inl, inr,
}
use psychic_funicular.Base.Int.{pos}
use psychic_funicular.Time.{nanos, epoch}
use psychic_funicular.Model.{Job, JobState, completed, is_terminal_state}
use psychic_funicular.Store.Api.{ok, err}
use psychic_funicular.Store.Rows.{JobRow, Db, node_row, job_row, unix_of}
use psychic_funicular.Store.Jobs.{
  update_where, create_job, get_job, assign_job, mark_job_running, finish_job, cancel_job, has_id,
}
use psychic_funicular.Store.Lifecycle.{Evolves}
use psychic_funicular.Store.Keys.{UniqueJobs, UniqueJobs-append}
use psychic_funicular.Store.Operations.{
  Traced, JobOp, submit, place, run, finish, cancel, apply, apply_all, jobs_follow_lifecycle,
}
use psychic_funicular.Store.Finished.{row_at, finished_stay_finished}
use psychic_funicular.Store.Registry.{
  NodeOp, register, beat, sweep, apply_nodes, keys, UniqueNodes, nodes_keep_identity,
  new_key-UniqueNodes,
}
use psychic_funicular.Store.RoundTrip.{created_job_is_read}
use psychic_funicular.Store.Nodes.{heartbeat, register_node}
use psychic_funicular.Store.Answers.{Cancels, assigned_once, cancel_answers, registered_is_known}
use psychic_funicular.Samples.{node, gpu, job, slot, cluster, clock}

abbrev one : JobRow
one = job_row (job "one" 2 1 100)

abbrev table : Db
table = record { nodes = map node_row cluster; jobs = one ∷ []; events = []; notifications = [] }

one_row : UniqueJobs table.jobs
unfolding job_row
one_row = UniqueJobs-append [] one refl (λ id. omega arith)

abbrev life : List JobOp
life =
    submit (job "two" 1 0 0) refl
    ∷ place "one" "n1" "n1" (slot 0 ∷ [])
    ∷ run "one" clock
    ∷ cancel "two" clock
    ∷ finish "one" completed refl (pos 0) "" clock
    ∷ cancel "one" clock
    ∷ []

abbrev states : Db → List JobState
states db = map (λ (r : JobRow). r.state) db.jobs

life_ends : states (apply_all life table) ≡ completed ∷ JobState.cancelled ∷ []
unfolding apply_all apply job_row unix_of create_job assign_job mark_job_running finish_job
    cancel_job update_where
life_ends = refl

jobs_follow_lifecycle_example :
    UniqueJobs (apply_all life table).jobs
    × Traced life table
    × Evolves table.jobs (apply_all life table).jobs
jobs_follow_lifecycle_example = jobs_follow_lifecycle life table one_row

abbrev ended : Db
ended = record table { jobs = record one { state = completed } ∷ [] }

ended_row : UniqueJobs ended.jobs
unfolding job_row
ended_row = UniqueJobs-append [] (record one { state = completed }) refl (λ id. omega arith)

finished_stay_finished_example :
    (r' : JobRow) × (row_at 0 (apply_all life ended).jobs ≡ some r')
    × (r'.id ≡ one.id)
    × (is_terminal_state r'.state ≡ true)
finished_stay_finished_example =
    finished_stay_finished life ended 0 (record one { state = completed }) ended_row refl refl

unique_nodes : UniqueNodes table.nodes
unfolding node_row
unique_nodes =
    let n1 = node_row (node "n1" 4 (gpu 0 "a100" ∷ gpu 1 "a100" ∷ [])) in
    new_key-UniqueNodes "n2" "n2" (n1 ∷ []) table.nodes refl refl refl
      (new_key-UniqueNodes "n1" "n1" [] (n1 ∷ []) refl refl refl (λ k. (omega arith, omega arith)))

abbrev arrivals : List NodeOp
arrivals =
    register (node "n3" 2 [])
    ∷ register (node "n1" 8 [])
    ∷ beat (node "n2" 1 []) clock
    ∷ sweep clock
    ∷ []

nodes_keep_identity_example :
    UniqueNodes (apply_nodes arrivals table).nodes
    × ((more : List (String × String)) × (keys (apply_nodes arrivals table).nodes
          ≡ keys table.nodes ++ more))
nodes_keep_identity_example = nodes_keep_identity arrivals table unique_nodes

abbrev submitted : Job
submitted = record (job "new" 1 0 10) {
  submit_at = pos ((5 + epoch) * nanos);
  start_at = pos 0;
  end_at = pos 0;
}

created_job_is_read_example :
    (submitted.req_mem_bytes < 2 ^ 63
      → ((create_job submitted table).0 ≡ ok tt)
        × (get_job submitted.id (create_job submitted table).1 ≡ ok (some submitted)))
    × (2 ^ 63 ≤ submitted.req_mem_bytes
        → ((e : String) × ((create_job submitted table).0 ≡ err e))
          × ((create_job submitted table).1 ≡ table))
unfolding job_row
created_job_is_read_example =
    created_job_is_read submitted table (inr (4, refl)) (inl refl) (inl refl) refl

assigned_once_example :
    let db' = (assign_job "one" "n1" "n1" (slot 0 ∷ []) table).1 in
    ((assign_job "one" "n2" "n2" [] db').0 ≡ err "assign job: not in PENDING state")
    × ((assign_job "one" "n2" "n2" [] db').1.jobs ≡ db'.jobs)
assigned_once_example = assigned_once "one" "n1" "n1" "n2" "n2" (slot 0 ∷ []) [] table

cancel_answers_example :
    let (answer, db') = cancel_job "one" clock table in
    ((state : JobState) × (r' : JobRow) × (answer ≡ ok state)
      × (find (has_id "one") db'.jobs ≡ some r')
      × (r'.state ≡ state)
      × Cancels clock one state r')
    × ((k : String)
        → str_eq "one" k ≡ false
        → find (has_id k) db'.jobs ≡ find (has_id k) table.jobs)
unfolding job_row
cancel_answers_example = cancel_answers "one" clock table one refl

second_beat_is_found :
    (heartbeat (node "n1" 8 []) clock (register_node (node "n1" 4 []) table).1).0 ≡ ok true
unfolding register_node node_row
second_beat_is_found =
    registered_is_known (node "n1" 4 []) table "n1" (node "n1" 8 []) clock refl refl
