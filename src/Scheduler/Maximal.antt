-- ===== src/Scheduler/Maximal.antt =====
-- Without backfill, `Plan` leaves no job behind that still fits.
use mathlib.Core.Path.{subst⁻¹}
use psychic_funicular.Base.{
  ℕ, zero, suc, ◌+◌, ◌≤◌, ◌<◌, ◌≡◌, refl, Bool, true, false, not, String, Option, none, some, List,
  [], ◌∷◌, ◌++◌, ◌⊎◌, inl, inr, arith, All, All-map, All-of_sort, All-sort, Memᴰ, Option-cases,
  length, length-append, keep,
}
use psychic_funicular.Platform.{Platform}
use psychic_funicular.Time.{Time}
use psychic_funicular.Model.{Node, AllocDevice, Job}
use psychic_funicular.Scheduler.Free.{
  FreeDevice, FreeNode, allot, used_in, take_from, pick_loop, pick_devices, has_room, try_node,
  select_fit, consume,
}
use psychic_funicular.Scheduler.Capacity.{granted, device_granted}
use psychic_funicular.Scheduler.Leftover.{
  leftover, cpus_at, mem_at, device_at, cpus_remain, mem_remains, devices_remain,
}
use psychic_funicular.Scheduler.Fitting.{matching, pick_loop_few, Fits, select_fit-none}
use psychic_funicular.Scheduler.Reservation.{reservation_time}
use psychic_funicular.Scheduler.Plan.{
  Decision, Policy, decide, may_start, reserve, queue, node_order, plan_loop, plan,
}
use psychic_funicular.Scheduler.Steps.{plan_loop-blocked, plan_loop-placed}

module _ (p : Platform) where
  pick_loop-none :
      (ds : List FreeDevice) (n : ℕ) (gpu_type : String) (out : List AllocDevice)
      → n < 4294967296
      → length out + matching p gpu_type ds < n
      → pick_loop p ds n gpu_type out ≡ none
  unfolding pick_loop matching
  pick_loop-none [] n gpu_type out b h = refl
  pick_loop-none (d ∷ ds) n gpu_type out b h = ground (
    arith,
    length-append out (allot d ∷ []),
    pick_loop-none ds n gpu_type out,
    pick_loop-none ds n gpu_type (out ++ allot d ∷ []),
  )

  matching-keep :
      (gpu_type : String) (q : FreeDevice → Bool) (ds : List FreeDevice)
      → matching p gpu_type (keep q ds) ≤ matching p gpu_type ds
  unfolding matching
  matching-keep gpu_type q [] = omega arith
  matching-keep gpu_type q (d ∷ ds) = ground (arith, matching-keep gpu_type q ds)

  pick_devices-keep :
      (ds : List FreeDevice) (n : ℕ) (gpu_type : String) (q : FreeDevice → Bool)
      → n < 4294967296
      → pick_devices p ds n gpu_type ≡ none
      → pick_devices p (keep q ds) n gpu_type ≡ none
  unfolding pick_devices
  pick_devices-keep ds n gpu_type q b e = ground (
    arith,
    matching-keep gpu_type q ds,
    pick_loop_few p ds n gpu_type [],
    pick_loop-none (keep q ds) n gpu_type [],
  )

  -- A job that does not fit on a node does not fit on what another job leaves of it.
  try_node-take_from :
      (job : Job) (fn : FreeNode) (cpus mem : ℕ) (devs : List AllocDevice)
      → job.req_gpus < 4294967296
      → try_node p job fn ≡ none
      → try_node p job (take_from cpus mem devs fn) ≡ none
  unfolding try_node has_room take_from
  try_node-take_from job fn cpus mem devs b e =
      ground (
        arith,
        pick_devices-keep fn.devices job.req_gpus job.gpu_type (λ d. not (used_in devs d)) b,
      )

  select_fit-consume :
      (job other : Job) (order : List FreeNode) (at : ℕ) (devs : List AllocDevice)
      → job.req_gpus < 4294967296
      → select_fit p job order ≡ none
      → select_fit p job (consume at other devs order) ≡ none
  unfolding select_fit consume
  select_fit-consume job other [] at devs b e = refl
  select_fit-consume job other (x ∷ xs) zero devs b e =
      ground (arith, try_node-take_from job x other.req_cpus other.req_mem_bytes devs b)
  select_fit-consume job other (x ∷ xs) (suc at) devs b e =
      ground (arith, select_fit-consume job other xs at devs b)

-- What two properties of all elements give.
All-with {ℓ κ μ ν} :
    {A : Type ℓ} {P : A → Type κ} {Q : A → Type μ} {R : A → Type ν}
    → ((x : A) → P x → Q x → R x)
    → (xs : List A) → All P xs
    → All Q xs
    → All R xs
All-with f [] p q = tt
All-with f (x ∷ xs) p q = (f x p.0 q.0, All-with f xs p.1 q.1)

abbrev pub Placed : List Decision → Job → Type 0
Placed ds job = (d : Decision) × Memᴰ d ds × (d.job_id ≡ job.id)

may_start_plain : (now : Time) (res : Option Time) (job : Job) → may_start false now res job ≡ true
unfolding may_start
may_start_plain now none job = refl
may_start_plain now (some t) job = refl

module _ (p : Platform) (now : Time) (nodes : List Node) (active : List Job) where
  plan_loop-select_fit :
      (job : Job) (order : List FreeNode) (res : Option Time) (jobs : List Job)
      → job.req_gpus < 4294967296
      → select_fit p job order ≡ none
      → select_fit p job (plan_loop p now nodes active false order res jobs).1 ≡ none
  unfolding plan_loop
  plan_loop-select_fit job order res [] b e = e
  plan_loop-select_fit job order res (other ∷ jobs) b e =
      elim (Option-cases (select_fit p other order)) [
        | inl e' ↦
            let res' = reserve false res (reservation_time p now other nodes active) in
            subst⁻¹ Shut (plan_loop-blocked p now nodes active false order res other jobs e')
              (plan_loop-select_fit job order res' jobs b e)
        | inr (f, e') ↦
            subst⁻¹ Shut
              (plan_loop-placed p now nodes active false order res other jobs f e'
                (may_start_plain now res other))
              (plan_loop-select_fit job (consume f.at other f.devices order) res jobs b
                (select_fit-consume p job other order f.at f.devices b e))
      ]
    where
      Shut : List Decision × List FreeNode → Type 0
      Shut r = select_fit p job r.1 ≡ none

  abbrev Settled : List Decision × List FreeNode → Job → Type 0
  Settled r job = Placed r.0 job ⊎ (select_fit p job r.1 ≡ none)

  Settled-later :
      (d : Decision) (ds : List Decision) (order : List FreeNode) (job : Job)
      → Settled (ds, order) job
      → Settled (d ∷ ds, order) job
  Settled-later d ds order job (inl (d', m, e)) = inl (d', Memᴰ.tail m, e)
  Settled-later d ds order job (inr e) = inr e

  plan_loop-Settled :
      (order : List FreeNode) (res : Option Time) (jobs : List Job)
      → All (λ (j : Job). j.req_gpus < 4294967296) jobs
      → All (Settled (plan_loop p now nodes active false order res jobs)) jobs
  unfolding plan_loop decide
  plan_loop-Settled order res [] b = tt
  plan_loop-Settled order res (job ∷ jobs) b = elim (Option-cases (select_fit p job order)) [
    | inl e ↦
        let res' = reserve false res (reservation_time p now job nodes active) in
        subst⁻¹ Done (plan_loop-blocked p now nodes active false order res job jobs e) (
          inr (plan_loop-select_fit job order res' jobs b.0 e),
          plan_loop-Settled order res' jobs b.1,
        )
    | inr (f, e) ↦
        let order' = consume f.at job f.devices order in
        let rest = plan_loop p now nodes active false order' res jobs in
        subst⁻¹ Done
          (plan_loop-placed p now nodes active false order res job jobs f e
            (may_start_plain now res job))
          (
            inl (decide job f, Memᴰ.head refl, refl),
            All-map (Settled-later (decide job f) rest.0 rest.1) jobs
                (plan_loop-Settled order' res jobs b.1),
          )
  ]
    where
      Done : List Decision × List FreeNode → Type 0
      Done r = All (Settled r) (job ∷ jobs)

  plan-Settled :
      (pending : List Job) (policy : Policy p)
      → policy.backfill ≡ false
      → All (λ (j : Job). j.req_gpus < 4294967296) pending
      → All
          (λ (j : Job).
            Placed (plan p now nodes active pending policy) j
            ⊎ (select_fit p j (leftover p now nodes active pending policy) ≡ none))
          pending
  unfolding plan queue
  plan-Settled pending policy off b = All-of_sort Outcome _ pending (
      subst⁻¹ AtPolicy off (
        plan_loop-Settled (node_order p nodes active) none (queue p now policy.age_weight pending)
          (All-sort (λ (j : Job). j.req_gpus < 4294967296) _ pending b)))
    where
      Outcome : Job → Type 0
      Outcome j =
          Placed (plan p now nodes active pending policy) j
          ⊎ (select_fit p j (leftover p now nodes active pending policy) ≡ none)

      AtPolicy : Bool → Type 0
      AtPolicy backfill =
          All
            (Settled (
              plan_loop p now nodes active backfill (node_order p nodes active) none
                (queue p now policy.age_weight pending)))
            (queue p now policy.age_weight pending)

  -- Without backfill (and with device counts that are uint32), each pending job is placed by the plan, or
  -- fits on none of the nodes as the plan leaves them: there is none that is of the partition that the job
  -- asks for and has its cores, its memory, and its devices of the model asked for. And of what is free at
  -- first, the plan leaves all that its decisions do not take: cores and memory under each id (where
  -- `demand` tells what the jobs ask for), and each device that no decision on its node grants.
  pub plan_maximal :
      (pending : List Job) (policy : Policy p)
      → policy.backfill ≡ false
      → All (λ (j : Job). j.req_gpus < 4294967296) pending
      → let decisions = plan p now nodes active pending policy in
        let first = node_order p nodes active in
        let rest = leftover p now nodes active pending policy in
        All (λ (j : Job). Placed decisions j ⊎ All (λ fn. ¬ Fits p j fn) rest) pending
        × ((demand : String → ℕ) (id : String)
            → All (λ (j : Job). demand j.id ≡ j.req_cpus) pending
            → cpus_at id first ≤ granted demand id decisions + cpus_at id rest)
        × ((demand : String → ℕ) (id : String)
            → All (λ (j : Job). demand j.id ≡ j.req_mem_bytes) pending
            → mem_at id first ≤ granted demand id decisions + mem_at id rest)
        × ((id : String) (k : AllocDevice)
            → device_granted id k decisions ≡ 0
            → device_at id k first ≤ device_at id k rest)
  plan_maximal pending policy off b =
      let rest = leftover p now nodes active pending policy in
      (
        All-with
            (λ j small s. elim s [
              | inl placed ↦ inl placed
              | inr none_found ↦ inr (select_fit-none p j rest small none_found)
            ])
            pending b (plan-Settled pending policy off b),
        cpus_remain p now nodes active pending policy,
        mem_remains p now nodes active pending policy,
        devices_remain p now nodes active pending policy,
      )
