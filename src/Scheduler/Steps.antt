-- ===== src/Scheduler/Steps.antt =====
-- One step of `Plan`, and the induction over its loop: what a measure of the free nodes loses
-- covers the cost of the decisions.
use psychic_funicular.Base.{
  ℕ, zero, suc, ◌+◌, ◌≤◌, ◌≡◌, Bool, true, false, Option, none, some, List, [], ◌∷◌, inl, inr,
  arith, get_elem?, sum_of, All, All-sort, Bool-cases, Option-cases,
}
use mathlib.Core.Path.{subst⁻¹}
use psychic_funicular.Platform.{Platform}
use psychic_funicular.Time.{Time}
use psychic_funicular.Model.{Node, AllocDevice, Job}
use psychic_funicular.Scheduler.Free.{FreeNode, Fit, take_from, try_node, select_fit, consume}
use psychic_funicular.Scheduler.Reservation.{reservation_time}
use psychic_funicular.Scheduler.Plan.{
  Decision, Policy, decide, may_start, reserve, plan_loop, plan, queue, node_order,
}

-- What `selectFit` returns: a node of the list, at its place, and the devices picked there.
pub record Chosen (p : Platform) (job : Job) (order : List FreeNode) (f : Fit) : Type 0 where
  pub found : get_elem? order f.at ≡ some f.node
  pub picked : try_node p job f.node ≡ some f.devices

pub select_fit-Chosen :
    (p : Platform) (job : Job) (order : List FreeNode) (f : Fit)
    → select_fit p job order ≡ some f
    → Chosen p job order f
unfolding select_fit
select_fit-Chosen p job [] f h = cc
select_fit-Chosen p job (fn ∷ rest) f h = elim (Option-cases (try_node p job fn)) [
  | inl e ↦ elim (Option-cases (select_fit p job rest)) [
    | inl e' ↦ ground (arith, e, e', h)
    | inr (g, e') ↦ let c = select_fit-Chosen p job rest g e' in ground (arith, e, e', h, c)
  ]
  | inr (d, e) ↦ ground (arith, e, h)
]

pub sum_of-consume :
    (g : FreeNode → ℕ) (job : Job) (devs : List AllocDevice) (order : List FreeNode) (at : ℕ)
    (fn : FreeNode)
    → get_elem? order at ≡ some fn
    → sum_of g (consume at job devs order) + g fn
      ≡ sum_of g order + g (take_from job.req_cpus job.req_mem_bytes devs fn)
unfolding consume
sum_of-consume g job devs [] at fn h = cc
sum_of-consume g job devs (x ∷ xs) zero fn h = ground (arith, h)
sum_of-consume g job devs (x ∷ xs) (suc at) fn h =
    omega (arith, sum_of-consume g job devs xs at fn h)

-- The three ways in which the loop of `Plan` treats a job.
module _ (p : Platform) (now : Time) (nodes : List Node) (active : List Job) (backfill : Bool) where
  pub plan_loop-blocked :
      (order : List FreeNode) (res : Option Time) (job : Job) (jobs : List Job)
      → select_fit p job order ≡ none
      → plan_loop p now nodes active backfill order res (job ∷ jobs)
        ≡ plan_loop p now nodes active backfill order
            (reserve backfill res (reservation_time p now job nodes active))
            jobs
  unfolding plan_loop
  plan_loop-blocked order res job jobs e = rw (e, plan_loop)

  pub plan_loop-placed :
      (order : List FreeNode) (res : Option Time) (job : Job) (jobs : List Job) (f : Fit)
      → select_fit p job order ≡ some f
      → may_start backfill now res job ≡ true
      → plan_loop p now nodes active backfill order res (job ∷ jobs) ≡ (
          let rest =
            plan_loop p now nodes active backfill (consume f.at job f.devices order) res jobs in
          (decide job f ∷ rest.0, rest.1))
  unfolding plan_loop
  plan_loop-placed order res job jobs f e start = rw (e, plan_loop) (rw start)

  pub plan_loop-held :
      (order : List FreeNode) (res : Option Time) (job : Job) (jobs : List Job) (f : Fit)
      → select_fit p job order ≡ some f
      → may_start backfill now res job ≡ false
      → plan_loop p now nodes active backfill order res (job ∷ jobs)
        ≡ plan_loop p now nodes active backfill order res jobs
  unfolding plan_loop
  plan_loop-held order res job jobs f e wait = rw (e, plan_loop) (rw wait)

-- The measure of a node pays for what is placed on it.
abbrev pub Pays : Platform → (Decision → ℕ) → (FreeNode → ℕ) → Job → Type 0
Pays p cost g job =
    (f : Fit)
    → try_node p job f.node ≡ some f.devices
    → cost (decide job f) + g (take_from job.req_cpus job.req_mem_bytes f.devices f.node) ≤ g f.node

module _ (p : Platform) (cost : Decision → ℕ) (g : FreeNode → ℕ) where
  Pays-consume :
      (job : Job) (order : List FreeNode) (f : Fit)
      → Pays p cost g job
      → select_fit p job order ≡ some f
      → cost (decide job f) + sum_of g (consume f.at job f.devices order) ≤ sum_of g order
  Pays-consume job order f pays h =
      let c = select_fit-Chosen p job order f h in
      omega (arith, pays f c.picked, sum_of-consume g job f.devices order f.at f.node c.found)

  module _ (now : Time) (nodes : List Node) (active : List Job) (backfill : Bool) where
    plan_loop-cost-le :
        (order : List FreeNode) (res : Option Time) (jobs : List Job)
        → All (Pays p cost g) jobs
        → sum_of cost (plan_loop p now nodes active backfill order res jobs).0
            + sum_of g (plan_loop p now nodes active backfill order res jobs).1
          ≤ sum_of g order
    unfolding plan_loop
    plan_loop-cost-le order res [] h = omega arith
    plan_loop-cost-le order res (job ∷ jobs) h = elim (Option-cases (select_fit p job order)) [
      | inl e ↦
          let res' = reserve backfill res (reservation_time p now job nodes active) in
          subst⁻¹ Bounded (plan_loop-blocked p now nodes active backfill order res job jobs e)
            (plan_loop-cost-le order res' jobs h.1)
      | inr (f, e) ↦ elim (Bool-cases (may_start backfill now res job)) [
        | inl start ↦
            subst⁻¹ Bounded
              (plan_loop-placed p now nodes active backfill order res job jobs f e start)
              (omega (
                arith,
                Pays-consume job order f h.0 e,
                plan_loop-cost-le (consume f.at job f.devices order) res jobs h.1,
              ))
        | inr wait ↦
            subst⁻¹ Bounded (plan_loop-held p now nodes active backfill order res job jobs f e wait)
              (plan_loop-cost-le order res jobs h.1)
      ]
    ]
      where
        Bounded : List Decision × List FreeNode → Type 0
        Bounded r = sum_of cost r.0 + sum_of g r.1 ≤ sum_of g order

  -- The whole plan: the cost of its decisions is at most the measure of the free nodes.
  pub plan-cost-le :
      (now : Time) (nodes : List Node) (active pending : List Job) (policy : Policy p)
      → All (Pays p cost g) pending
      → sum_of cost (plan p now nodes active pending policy) ≤ sum_of g (node_order p nodes active)
  unfolding plan queue
  plan-cost-le now nodes active pending policy h = omega (
    arith,
    plan_loop-cost-le now nodes active policy.backfill (node_order p nodes active) none
        (queue p now policy.age_weight pending) (All-sort (Pays p cost g) _ pending h),
  )
