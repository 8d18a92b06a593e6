-- ===== src/Scheduler/Once.antt =====
-- `Plan` decides about a job once at most.
use mathlib.Core.Path.{subst⁻¹}
use psychic_funicular.Base.{
  ℕ, ◌≤◌, Bool, String, Option, none, List, [], ◌∷◌, inl, inr, arith, if◌then◌else◌, Bool-cases,
  Option-cases, str_eq, sum_of, sum_of-sort,
}
use psychic_funicular.Platform.{Platform}
use psychic_funicular.Time.{Time}
use psychic_funicular.Model.{Node, Job}
use psychic_funicular.Scheduler.Free.{FreeNode, select_fit, consume}
use psychic_funicular.Scheduler.Reservation.{reservation_time}
use psychic_funicular.Scheduler.Plan.{
  Decision, Policy, decide, may_start, reserve, comes_before, queue, node_order, plan_loop, plan,
}
use psychic_funicular.Scheduler.Steps.{plan_loop-blocked, plan_loop-placed, plan_loop-held}

-- How often an id is decided about, and how often it waits.
abbrev pub decided : String → List Decision → ℕ
decided id ds = sum_of (λ (d : Decision). if str_eq d.job_id id then 1 else 0) ds

abbrev pub waits : String → List Job → ℕ
waits id jobs = sum_of (λ (j : Job). if str_eq j.id id then 1 else 0) jobs

module _ (p : Platform) (now : Time) (nodes : List Node) (active : List Job) (id : String) where
  plan_loop-decided :
      (backfill : Bool) (order : List FreeNode) (res : Option Time) (jobs : List Job)
      → decided id (plan_loop p now nodes active backfill order res jobs).0 ≤ waits id jobs
  unfolding plan_loop decide
  plan_loop-decided backfill order res [] = omega arith
  plan_loop-decided backfill order res (job ∷ jobs) = elim (Option-cases (select_fit p job order)) [
    | inl e ↦
        let res' = reserve backfill res (reservation_time p now job nodes active) in
        subst⁻¹ Bounded (plan_loop-blocked p now nodes active backfill order res job jobs e)
          (omega (arith, plan_loop-decided backfill order res' jobs))
    | inr (f, e) ↦ elim (Bool-cases (may_start backfill now res job)) [
      | inl start ↦
          subst⁻¹ Bounded
            (plan_loop-placed p now nodes active backfill order res job jobs f e start)
            (omega (arith, plan_loop-decided backfill (consume f.at job f.devices order) res jobs))
      | inr wait ↦
          subst⁻¹ Bounded (plan_loop-held p now nodes active backfill order res job jobs f e wait)
            (omega (arith, plan_loop-decided backfill order res jobs))
    ]
  ]
    where
      Bounded : List Decision × List FreeNode → Type 0
      Bounded r = decided id r.0 ≤ waits id (job ∷ jobs)

  -- A plan decides about an id at most as often as it stands among the pending jobs: about a job whose
  -- id is its own, once at most.
  pub plan_once :
      (pending : List Job) (policy : Policy p)
      → decided id (plan p now nodes active pending policy) ≤ waits id pending
  unfolding plan queue
  plan_once pending policy = omega (
    arith,
    plan_loop-decided policy.backfill (node_order p nodes active) none
        (queue p now policy.age_weight pending),
    sum_of-sort (comes_before p now policy.age_weight)
        (λ (j : Job). if str_eq j.id id then 1 else 0) pending,
  )
