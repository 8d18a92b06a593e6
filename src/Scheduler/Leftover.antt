-- ===== src/Scheduler/Leftover.antt =====
-- What a plan leaves of the free nodes: all that its decisions do not take.
use psychic_funicular.Base.{
  ℕ, ◌+◌, ◌≤◌, ◌≡◌, refl, none, Bool, true, false, not, String, some, List, [], ◌∷◌, inl, inr,
  arith, keep, sum_of, All, All-map, All-of, All-sort, Bool-cases, Option-cases, Option, str_eq_iff,
}
use mathlib.Core.Path.{subst⁻¹}
use psychic_funicular.Platform.{Platform}
use psychic_funicular.Time.{Time}
use psychic_funicular.Model.{Node, AllocDevice, Job}
use psychic_funicular.Scheduler.Free.{
  FreeDevice, FreeNode, Fit, used_in, same_key, take_from, remove_free_devices, select_fit, consume,
}
use psychic_funicular.Scheduler.Reservation.{reservation_time}
use psychic_funicular.Scheduler.Plan.{
  Decision, Policy, decide, may_start, reserve, plan_loop, plan, queue, node_order,
}
use psychic_funicular.Scheduler.Steps.{
  select_fit-Chosen, sum_of-consume, plan_loop-blocked, plan_loop-placed, plan_loop-held,
}
use psychic_funicular.Scheduler.Resource.{count_free, count_held}
use psychic_funicular.Scheduler.Account.{at_node}
use psychic_funicular.Scheduler.Capacity.{granted, device_granted}

-- A relation between the free nodes and the outcome of the loop, which every job that is placed keeps.
abbrev Outcome : Type 1
Outcome = List FreeNode → List Decision × List FreeNode → Type 0

abbrev Placing : Platform → Outcome → Job → Type 0
Placing p R job =
    (order : List FreeNode) (f : Fit) (r : List Decision × List FreeNode)
    → select_fit p job order ≡ some f
    → R (consume f.at job f.devices order) r
    → R order (decide job f ∷ r.0, r.1)

module _ (p : Platform) (now : Time) (nodes : List Node) (active : List Job) (backfill : Bool)
    (R : Outcome) (stop : (order : List FreeNode) → R order ([], order)) where
  plan_loop-induct :
      (order : List FreeNode) (res : Option Time) (jobs : List Job)
      → All (Placing p R) jobs
      → R order (plan_loop p now nodes active backfill order res jobs)
  unfolding plan_loop
  plan_loop-induct order res [] h = stop order
  plan_loop-induct order res (job ∷ jobs) h = elim (Option-cases (select_fit p job order)) [
    | inl e ↦
        subst⁻¹ (R order) (plan_loop-blocked p now nodes active backfill order res job jobs e) (
          plan_loop-induct order (reserve backfill res (reservation_time p now job nodes active))
            jobs h.1)
    | inr (f, e) ↦ elim (Bool-cases (may_start backfill now res job)) [
      | inl start ↦
          subst⁻¹ (R order)
            (plan_loop-placed p now nodes active backfill order res job jobs f e start)
            (h.0 order f _ e (plan_loop-induct (consume f.at job f.devices order) res jobs h.1))
      | inr wait ↦
          subst⁻¹ (R order) (plan_loop-held p now nodes active backfill order res job jobs f e wait)
            (plan_loop-induct order res jobs h.1)
    ]
  ]

-- The decisions take all that the nodes lose.
abbrev Covers : (Decision → ℕ) → (FreeNode → ℕ) → Outcome
Covers cost g order r = sum_of g order ≤ sum_of cost r.0 + sum_of g r.1

-- If the decisions take nothing, the nodes lose nothing.
abbrev Spares : (Decision → ℕ) → (FreeNode → ℕ) → Outcome
Spares cost g order r = sum_of cost r.0 ≡ 0 → sum_of g order ≤ sum_of g r.1

module _ (p : Platform) (cost : Decision → ℕ) (g : FreeNode → ℕ) where
  Covers-Placing :
      (job : Job)
      → ((f : Fit)
          → g f.node
            ≤ cost (decide job f) + g (take_from job.req_cpus job.req_mem_bytes f.devices f.node))
      → Placing p (Covers cost g) job
  Covers-Placing job enough order f r e h =
      let c = select_fit-Chosen p job order f e in
      omega (arith, enough f, h, sum_of-consume g job f.devices order f.at f.node c.found)

  Spares-Placing :
      (job : Job)
      → ((f : Fit)
          → cost (decide job f) ≡ 0
          → g f.node ≤ g (take_from job.req_cpus job.req_mem_bytes f.devices f.node))
      → Placing p (Spares cost g) job
  Spares-Placing job enough order f r e h none_taken =
      let c = select_fit-Chosen p job order f e in
      omega (
        arith,
        enough f (omega (arith, none_taken)),
        h (omega (arith, none_taken)),
        sum_of-consume g job f.devices order f.at f.node c.found,
      )

cpus_spent :
    (job : Job) (fn : FreeNode) (devs : List AllocDevice)
    → fn.cpus ≤ job.req_cpus + (take_from job.req_cpus job.req_mem_bytes devs fn).cpus
unfolding take_from
cpus_spent job fn devs = ground arith

mem_spent :
    (job : Job) (fn : FreeNode) (devs : List AllocDevice)
    → fn.mem ≤ job.req_mem_bytes + (take_from job.req_cpus job.req_mem_bytes devs fn).mem
unfolding take_from
mem_spent job fn devs = ground arith

unheld_unused :
    (k : AllocDevice) (d : FreeDevice) (used : List AllocDevice)
    → count_held k used ≡ 0
    → same_key d.kind d.index k ≡ true
    → used_in used d ≡ false
unheld_unused k d [] h s = refl
unheld_unused k d (u ∷ us) h s = ground (
  arith,
  unheld_unused k d us,
  str_eq_iff k.kind d.kind,
  str_eq_iff u.kind d.kind,
  str_eq_iff u.kind k.kind,
)

devices_spared :
    (k : AllocDevice) (used : List AllocDevice) (ds : List FreeDevice)
    → count_held k used ≡ 0
    → count_free k ds ≤ count_free k (keep (λ d. not (used_in used d)) ds)
devices_spared k used [] h = omega arith
devices_spared k used (d ∷ ds) h = elim (Bool-cases (same_key d.kind d.index k)) [
  | inl s ↦ rw (unheld_unused k d used h s) (omega (arith, devices_spared k used ds h))
  | inr s ↦ ground (arith, s, devices_spared k used ds h)
]

-- What is free under an id.
abbrev pub cpus_at : String → List FreeNode → ℕ
cpus_at id order = sum_of (λ (fn : FreeNode). at_node id fn.id fn.cpus) order

abbrev pub mem_at : String → List FreeNode → ℕ
mem_at id order = sum_of (λ (fn : FreeNode). at_node id fn.id fn.mem) order

abbrev pub device_at : String → AllocDevice → List FreeNode → ℕ
device_at id k order = sum_of (λ (fn : FreeNode). at_node id fn.id (count_free k fn.devices)) order

module _ (p : Platform) (now : Time) (nodes : List Node) (active : List Job) where
  -- The free nodes as the plan leaves them.
  abbrev pub leftover : List Job → Policy p → List FreeNode
  leftover pending policy =
      (plan_loop p now nodes active policy.backfill (node_order p nodes active) none
        (queue p now policy.age_weight pending)).1

  module _ (pending : List Job) (policy : Policy p) where
    outcome_of_plan :
        (R : Outcome)
        → ((order : List FreeNode) → R order ([], order))
        → All (Placing p R) pending
        → R
            (node_order p nodes active)
            (plan p now nodes active pending policy, leftover pending policy)
    unfolding plan queue
    outcome_of_plan R stop h =
        plan_loop-induct p now nodes active policy.backfill R stop (node_order p nodes active) none
          (queue p now policy.age_weight pending) (All-sort (Placing p R) _ pending h)

    pub cpus_remain :
        (demand : String → ℕ) (id : String)
        → All (λ (j : Job). demand j.id ≡ j.req_cpus) pending
        → cpus_at id (node_order p nodes active)
          ≤ granted demand id (plan p now nodes active pending policy)
            + cpus_at id (leftover pending policy)
    unfolding decide take_from
    cpus_remain demand id agrees =
        let cost = λ (d : Decision). at_node id d.node_id (demand d.job_id) in
        let g = λ (fn : FreeNode). at_node id fn.id fn.cpus in
        outcome_of_plan (Covers cost g) (λ order. omega arith)
          (All-map
            (λ job e.
              Covers-Placing p cost g job (λ f. ground (arith, e, cpus_spent job f.node f.devices)))
            pending agrees)

    pub mem_remains :
        (demand : String → ℕ) (id : String)
        → All (λ (j : Job). demand j.id ≡ j.req_mem_bytes) pending
        → mem_at id (node_order p nodes active)
          ≤ granted demand id (plan p now nodes active pending policy)
            + mem_at id (leftover pending policy)
    unfolding decide take_from
    mem_remains demand id agrees =
        let cost = λ (d : Decision). at_node id d.node_id (demand d.job_id) in
        let g = λ (fn : FreeNode). at_node id fn.id fn.mem in
        outcome_of_plan (Covers cost g) (λ order. omega arith)
          (All-map
            (λ job e.
              Covers-Placing p cost g job (λ f. ground (arith, e, mem_spent job f.node f.devices)))
            pending agrees)

    pub devices_remain :
        (id : String) (k : AllocDevice)
        → device_granted id k (plan p now nodes active pending policy) ≡ 0
        → device_at id k (node_order p nodes active) ≤ device_at id k (leftover pending policy)
    unfolding decide take_from remove_free_devices
    devices_remain id k =
        let cost = λ (d : Decision). at_node id d.node_id (count_held k d.devices) in
        let g = λ (fn : FreeNode). at_node id fn.id (count_free k fn.devices) in
        outcome_of_plan (Spares cost g) (λ order _. omega arith)
          (All-of (Placing p (Spares cost g))
            (λ job.
              Spares-Placing p cost g job
                (λ f z. ground (arith, z, devices_spared k f.devices f.node.devices)))
            pending)
