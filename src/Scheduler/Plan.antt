-- ===== src/Scheduler/Plan.antt =====
-- plan.go: `Plan`, the batch of decisions for the pending jobs.
use psychic_funicular.Base.{
  Bool, true, not, ◌&&◌, String, Option, none, some, List, [], ◌∷◌, if◌then◌else◌, str_lt, sort,
}
use psychic_funicular.Base.Int.{pos}
use psychic_funicular.Platform.{Platform}
use psychic_funicular.Time.{Time, is_zero, before, sub}
use psychic_funicular.Model.{Node, AllocDevice, Job}
use psychic_funicular.Scheduler.Free.{FreeNode, Fit, build_free, select_fit, consume}
use psychic_funicular.Scheduler.Reservation.{backfill_allowed, reservation_time}

pub record Decision : Type 0 where
  pub job_id : String
  pub node_id : String
  pub node_name : String
  pub devices : List AllocDevice

unfoldable pub decide : Job → Fit → Decision
decide job f = record {
  job_id = job.id;
  node_id = f.node.id;
  node_name = f.node.name;
  devices = f.devices;
}

-- May this job be placed, given the reservation so far?
unfoldable pub may_start : Bool → Time → Option Time → Job → Bool
may_start backfill now none job = true
may_start backfill now (some res_time) job =
    not (backfill && not (backfill_allowed now job res_time))

-- The reservation after a job that did not fit.
unfoldable pub reserve : Bool → Option Time → Option Time → Option Time
reserve backfill (some res_time) found = some res_time
reserve backfill none found = if backfill then found else none

module _ (p : Platform) where
  open p use {Float, float_of, float_add, float_mul, float_lt, float_eq, minutes}

  pub record Policy : Type 0 where
    pub backfill : Bool
    pub age_weight : Float

  unfoldable pub eff_priority : Job → Time → Float → Float
  unfolding sub
  eff_priority j now age_weight =
      let base = float_of j.priority in
      let wait = minutes (sub now j.submit_at) in
      if float_lt (float_of (pos 0)) age_weight && not (is_zero j.submit_at)
      then if float_lt (float_of (pos 0)) wait
        then float_add base (float_mul age_weight wait)
        else base
      else base

  -- The order of the queue: the higher priority first, then the earlier submission.
  unfoldable pub comes_before : Time → Float → Job → Job → Bool
  comes_before now age_weight a b =
      let pa = eff_priority a now age_weight in
      let pb = eff_priority b now age_weight in
      if not (float_eq pa pb) then float_lt pb pa else before a.submit_at b.submit_at

  unfoldable pub queue : Time → Float → List Job → List Job
  queue now age_weight pending = sort (comes_before now age_weight) pending

  unfoldable pub node_order : List Node → List Job → List FreeNode
  node_order nodes active = sort (λ a b. str_lt a.name b.name) (build_free nodes active)

  -- The loop of `Plan`: the free nodes, the reservation, the jobs left; what it decides and the
  -- nodes as it leaves them.
  module _ (now : Time) (nodes : List Node) (active : List Job) (backfill : Bool) where
    unfoldable pub plan_loop :
        List FreeNode → Option Time → List Job → List Decision × List FreeNode
    plan_loop order res [] = ([], order)
    plan_loop order res (job ∷ jobs) = elim (select_fit p job order) [
      | some f ↦
          let placed = plan_loop (consume f.at job f.devices order) res jobs in
          let passed_over = plan_loop order res jobs in
          if may_start backfill now res job
          then (decide job f ∷ placed.0, placed.1)
          else passed_over
      | none ↦ plan_loop order (reserve backfill res (reservation_time p now job nodes active)) jobs
    ]

  unfoldable pub plan : Time → List Node → List Job → List Job → Policy → List Decision
  plan now nodes active pending policy =
      (plan_loop now nodes active policy.backfill (node_order nodes active) none
        (queue now policy.age_weight pending)).0
