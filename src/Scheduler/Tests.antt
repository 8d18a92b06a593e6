-- ===== src/Scheduler/Tests.antt =====
-- Runs of the scheduler on small clusters, and its theorems at concrete inputs.
use psychic_funicular.Base.{
  ◌+◌, ◌*◌, ℕ, ◌-◌, ◌≤◌, ◌≡◌, refl, true, false, String, none, some, List, [], ◌∷◌, map, arith, All,
  ◌⊎◌, sort, str_eq, str_eq_iff, if◌then◌else◌, Memᴰ,
}
use psychic_funicular.Base.Int.{pos, ◌≤ℤ◌, ◌+ℤ◌, ◌-ℤ◌, mul64}
use psychic_funicular.Time.{Time, nanos, seconds, sub}
use psychic_funicular.Model.{completed, Node, AllocDevice, Job}
use psychic_funicular.Store.Rows.{Db, node_row, job_row, unix_of, scan_node, scan_job, unix_to_time}
use psychic_funicular.Store.Jobs.{list_active_jobs, list_pending_jobs, query_jobs}
use psychic_funicular.Store.Nodes.{list_nodes}
use psychic_funicular.Store.Keys.{UniqueJobs, UniqueJobs-append}
use psychic_funicular.Store.Sqlite.{sqlite}
use psychic_funicular.Scheduler.Free.{
  build_free, collect_free, charge_all, charge, select_fit, try_node, has_room, pick_devices,
  pick_loop, match_name, consume, free_node, put_free, take_from,
}
use psychic_funicular.Scheduler.Reservation.{
  reservation_time, reservation_loop, eligible, node_reservation_time, occupations, occupation_of,
  count_job_matching, count_named, full_room, occupy_all, first_fit, fits, vacate, est_end, occupy,
  backfill_allowed, count_matching_devices, name_of,
}
use psychic_funicular.Scheduler.Plan.{
  Decision, decide, may_start, reserve, eff_priority, comes_before, queue, node_order, plan_loop,
  plan,
}
use psychic_funicular.Scheduler.Pass.{pass}
use psychic_funicular.Scheduler.Capacity.{
  cpu_capacity, cpus_held, mem_capacity, mem_held, device_capacity, device_held, granted,
  device_granted, plan_cpus_fit, plan_mem_fit, plan_devices_fit,
}
use psychic_funicular.Scheduler.Sound.{Sound, plan-Sound}
use psychic_funicular.Scheduler.Backfill.{EndsBy, backfill_keeps_reservation}
use psychic_funicular.Scheduler.Fitting.{Fits}
use psychic_funicular.Scheduler.Leftover.{leftover, cpus_at, mem_at, device_at}
use psychic_funicular.Scheduler.Maximal.{Placed, plan_maximal}
use psychic_funicular.Scheduler.Once.{decided, waits, plan_once}
use psychic_funicular.Scheduler.Earliest.{offer, reservation_earliest, reservation_found}
use psychic_funicular.Scheduler.Invariant.{NodeFits, active_jobs, listed_nodes, pass_keeps_capacity}
use psychic_funicular.Store.Operations.{submit, run, finish, cancel}
use psychic_funicular.Scheduler.History.{Turn, passes, states, take_turns, history_keeps_capacity}
use psychic_funicular.Samples.{
  exact, node, gpu, job, slot, on_node, cluster, policy, clock, busy, waiting,
}

-- All that a run of `Plan` computes with.
abbrev Summary : Type 0
Summary = List (String × String × List AllocDevice)

summary : List Decision → Summary
summary ds =
    map {B = String × String × List AllocDevice}
      (λ (d : Decision). (d.job_id, d.node_id, d.devices)) ds

program : Unit {0}
unfolding plan plan_loop queue comes_before eff_priority sub node_order build_free collect_free
    charge_all charge put_free free_node take_from select_fit try_node has_room pick_devices
    pick_loop match_name consume decide may_start occupy backfill_allowed reserve sort
    reservation_time reservation_loop eligible node_reservation_time occupations occupation_of
    count_job_matching count_named name_of full_room occupy_all first_fit fits vacate est_end
    count_matching_devices seconds mul64 ◌+ℤ◌ ◌-ℤ◌ summary
program = tt

plan_plain :
    summary (plan exact clock cluster busy waiting (policy false))
    ≡ ("one", "n1", slot 1 ∷ []) ∷ ("cpu", "n2", []) ∷ []
unfolding program
plan_plain = refl

-- The job "big" reserves; "cpu" would run past the reservation, and "one" is allowed.
plan_backfill :
    summary (plan exact clock cluster busy waiting (policy true)) ≡ ("one", "n1", slot 1 ∷ []) ∷ []
unfolding program
plan_backfill = refl

-- Exactly one of the jobs has an id, and it asks for what `ask` says.
abbrev ask : String → ℕ
ask id =
    if str_eq id "big" then 4 else if str_eq id "one" then 2 else if str_eq id "cpu" then 8 else 0

plan_cpus_fit_example :
    granted ask "n1" (plan exact clock cluster busy waiting (policy true))
    ≤ cpu_capacity "n1" cluster - cpus_held "n1" busy
plan_cpus_fit_example =
    plan_cpus_fit exact clock cluster busy waiting (policy true) ask "n1" (refl, (refl, (refl, tt)))

plan_mem_fit_example :
    granted (λ id. 1) "n1" (plan exact clock cluster busy waiting (policy true))
    ≤ mem_capacity "n1" cluster - mem_held "n1" busy
plan_mem_fit_example =
    plan_mem_fit exact clock cluster busy waiting (policy true) (λ id. 1) "n1"
      (refl, (refl, (refl, tt)))

plan_devices_fit_example :
    device_granted "n1" (slot 0) (plan exact clock cluster busy waiting (policy true))
    ≤ device_capacity "n1" (slot 0) cluster - device_held "n1" (slot 0) busy
plan_devices_fit_example =
    plan_devices_fit exact clock cluster busy waiting (policy true) (slot 0) "n1"

plan-Sound_example :
    All (Sound exact cluster waiting) (plan exact clock cluster busy waiting (policy true))
plan-Sound_example = plan-Sound exact clock cluster busy waiting (policy true)

abbrev behind : List Job
behind = job "one" 2 1 100 ∷ job "cpu" 8 0 2000 ∷ []

backfill_keeps_reservation_example :
    All
      (EndsBy clock (pos (1001 * nanos)) behind)
      (plan_loop exact clock cluster busy true
        (node_order exact cluster busy)
        none
        (job "big" 4 2 50 ∷ behind)).0
unfolding program
backfill_keeps_reservation_example =
    backfill_keeps_reservation exact clock cluster busy (pos (1001 * nanos))
      (node_order exact cluster busy) (job "big" 4 2 50) behind refl refl

plan_maximal_example :
    let decisions = plan exact clock cluster busy waiting (policy false) in
    let first = node_order exact cluster busy in
    let rest = leftover exact clock cluster busy waiting (policy false) in
    All (λ (j : Job). Placed decisions j ⊎ All (λ fn. ¬ Fits exact j fn) rest) waiting
    × ((demand : String → ℕ) (id : String)
        → All (λ (j : Job). demand j.id ≡ j.req_cpus) waiting
        → cpus_at id first ≤ granted demand id decisions + cpus_at id rest)
    × ((demand : String → ℕ) (id : String)
        → All (λ (j : Job). demand j.id ≡ j.req_mem_bytes) waiting
        → mem_at id first ≤ granted demand id decisions + mem_at id rest)
    × ((id : String) (k : AllocDevice)
        → device_granted id k decisions ≡ 0
        → device_at id k first ≤ device_at id k rest)
plan_maximal_example =
    plan_maximal exact clock cluster busy waiting (policy false) refl (omega arith)

no_second_decision :
    decided "one" (plan exact clock cluster busy waiting (policy true)) ≤ waits "one" waiting
no_second_decision = plan_once exact clock cluster busy "one" waiting (policy true)

abbrev n1 : Node
n1 = node "n1" 4 (gpu 0 "a100" ∷ gpu 1 "a100" ∷ [])

reservation_earliest_example :
    ((n : Node) × Memᴰ n cluster
      × (offer exact clock (job "big" 4 2 50) busy n ≡ some (pos (1001 * nanos))))
    × All
        (λ n.
          (t' : Time)
          → offer exact clock (job "big" 4 2 50) busy n ≡ some t'
          → pos (1001 * nanos) ≤ℤ t')
        cluster
unfolding program
reservation_earliest_example =
    reservation_earliest exact clock (job "big" 4 2 50) busy cluster (pos (1001 * nanos)) refl

reservation_found_example :
    (t : Time) × (t' : Time) × (reservation_time exact clock (job "big" 4 2 50) cluster busy
      ≡ some t)
    × (node_reservation_time exact clock (job "big" 4 2 50) n1 busy ≡ some t')
    × (t ≤ℤ t')
unfolding program
reservation_found_example =
    reservation_found exact clock (job "big" 4 2 50) busy cluster n1 (Memᴰ.head refl) refl
      (omega arith)

abbrev table : Db
table = record {
  nodes = map node_row cluster;
  jobs = map job_row (on_node "n1" (slot 0 ∷ []) (job "r" 2 1 1000) ∷ waiting);
  events = [];
  notifications = [];
}

rows : Unit {0}
unfolding node_row job_row scan_node scan_job unix_of unix_to_time list_nodes list_active_jobs
    list_pending_jobs query_jobs sort
rows = tt

keys : UniqueJobs table.jobs
unfolding rows
keys =
    let r = job_row (on_node "n1" (slot 0 ∷ []) (job "r" 2 1 1000)) in
    let big = job_row (job "big" 4 2 50) in
    let one = job_row (job "one" 2 1 100) in
    UniqueJobs-append (r ∷ big ∷ one ∷ []) (job_row (job "cpu" 8 0 2000)) refl (
      UniqueJobs-append (r ∷ big ∷ []) one refl
        (UniqueJobs-append (r ∷ []) big refl (UniqueJobs-append [] r refl (λ id. omega arith))))

device_held_once :
    (k : AllocDevice)
    → device_held "n1" k (active_jobs table) ≤ device_capacity "n1" k (listed_nodes table)
unfolding rows
device_held_once k = ground (arith, str_eq_iff "gpu" k.kind, str_eq_iff k.kind "gpu")

pass_keeps_capacity_example : NodeFits "n1" (pass sqlite exact clock (policy true) table)
unfolding rows
pass_keeps_capacity_example =
    pass_keeps_capacity exact clock (policy true) table "n1" keys
      (record { cpus_fit = omega arith; mem_fit = omega arith; devices_fit = device_held_once })

abbrev history : List (Turn exact)
history =
    states (submit (job "late" 1 0 0) refl) refl
    ∷ passes clock (policy true)
    ∷ states (run "one" clock) refl
    ∷ states (cancel "big" clock) refl
    ∷ states (finish "r" completed refl (pos 0) "" clock) refl
    ∷ passes clock (policy false)
    ∷ []

history_keeps_capacity_example : NodeFits "n1" (take_turns exact history table)
unfolding rows
history_keeps_capacity_example =
    history_keeps_capacity exact history table "n1" keys
      (record { cpus_fit = omega arith; mem_fit = omega arith; devices_fit = device_held_once })
