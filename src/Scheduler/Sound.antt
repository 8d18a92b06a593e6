-- ===== src/Scheduler/Sound.antt =====
-- Every decision of `Plan` is one that the source's rules allow.
use mathlib.Core.Path.{subst, subst⁻¹}
use mathlib.Core.Option.{some-injective}
use psychic_funicular.Base.{
  ℕ, ◌<◌, ◌≡◌, refl, Bool, true, ◌⊎◌, String, Option, none, some, List, [], ◌∷◌, ◌++◌, inl, inr,
  arith, ◌==◌, length, length-append, str_contains, str_eq, str_eq_iff, All, All_get, All-self,
  All-sort, All-append, Memᴰ, Bool-cases, Option-cases,
}
use psychic_funicular.Platform.{Platform}
use psychic_funicular.Time.{Time}
use psychic_funicular.Model.{Device, Node, AllocDevice, Job, is_up}
use psychic_funicular.Scheduler.Free.{
  FreeDevice, FreeNode, Fit, allot, u32, match_name, pick_loop, pick_devices, has_room, try_node,
  select_fit, consume,
}
use psychic_funicular.Scheduler.Reservation.{reservation_time}
use psychic_funicular.Scheduler.Plan.{
  Decision, Policy, decide, may_start, reserve, queue, node_order, plan_loop, plan,
}
use psychic_funicular.Scheduler.Steps.{
  select_fit-Chosen, plan_loop-blocked, plan_loop-placed, plan_loop-held,
}
use psychic_funicular.Scheduler.Mirror.{Stems, Mirrors, consume-Mirrors, node_order-Mirrors}

-- A model of device answers a request that names no model, or whose text its name contains whatever the
-- case of the letters.
abbrev pub Answers : Platform → String → String → Type 0
Answers p name gpu_type =
    (gpu_type ≡ "") ⊎ (str_contains (p.to_lower name) (p.to_lower gpu_type) ≡ true)

match_name-Answers :
    (p : Platform) (name gpu_type : String)
    → match_name p name gpu_type ≡ true
    → Answers p name gpu_type
unfolding match_name
match_name-Answers p name gpu_type h = elim (Bool-cases (str_eq gpu_type "")) [
  | inl e ↦ inl ((str_eq_iff gpu_type "").0 e)
  | inr e ↦ inr (rw e at h)
]

-- A device of the node with the key of `a`, of a model that the job accepts.
pub record Supplies (p : Platform) (job : Job) (devs : List Device) (a : AllocDevice) : Type 0 where
  pub device : Device
  pub listed : Memᴰ device devs
  pub same_kind : a.kind ≡ device.kind
  pub same_index : a.index ≡ device.index
  pub accepted : Answers p device.name job.gpu_type

-- What makes a decision sound, with the job and the node that it is about.
pub record Sound (p : Platform) (nodes : List Node) (pending : List Job) (d : Decision)
    : Type 0 where
  pub job : Job
  pub waiting : Memᴰ job pending
  pub names_job : d.job_id ≡ job.id
  pub node : Node
  pub listed : Memᴰ node nodes
  pub in_service : is_up node.state ≡ true
  pub names_node : d.node_id ≡ node.id
  pub names_node_name : d.node_name ≡ node.name
  pub partition : (job.partition ≡ "") ⊎ (job.partition ≡ node.partition)
  pub counted : job.req_gpus < 4294967296 → length d.devices ≡ job.req_gpus
  pub supplied : All (Supplies p job node.devices) d.devices

module _ (p : Platform) where
  -- The devices picked: all allotted from the list and of the model asked for.
  pick_loop-Supplies :
      (job : Job) (all : List Device) (ds : List FreeDevice) (n : ℕ) (out devs : List AllocDevice)
      → All (Stems all) ds
      → All (Supplies p job all) out
      → pick_loop p ds n job.gpu_type out ≡ some devs
      → All (Supplies p job all) devs
  unfolding pick_loop
  pick_loop-Supplies job all [] n out devs st h e = absurd (ground (arith, e))
  pick_loop-Supplies job all (d ∷ ds) n out devs st h e =
      elim (Bool-cases (match_name p d.name job.gpu_type)) [
        | inr no_match ↦
            pick_loop-Supplies job all ds n out devs st.1 h (rw (no_match, pick_loop) at e)
        | inl matches ↦
            let out' : All (Supplies p job all) (out ++ allot d ∷ []) =
              All-append (Supplies p job all) out (allot d ∷ []) h (
                record {
                  device = st.0.device;
                  listed = st.0.listed;
                  same_kind = st.0.same_kind;
                  same_index = st.0.same_index;
                  accepted =
                      subst (λ s. Answers p s job.gpu_type) st.0.same_name
                        (match_name-Answers p d.name job.gpu_type matches);
                },
                tt,
              ) in
            elim (Bool-cases (u32 (length (out ++ allot d ∷ [])) == n)) [
              | inl full ↦
                  subst (All (Supplies p job all)) (some-injective _ _ (rw (matches, full) at e))
                    out'
              | inr more ↦
                  pick_loop-Supplies job all ds n (out ++ allot d ∷ []) devs st.1 out'
                    (rw (matches, more) at e)
            ]
      ]

  length-pick_loop :
      (ds : List FreeDevice) (n : ℕ) (gpu_type : String) (out devs : List AllocDevice)
      → n < 4294967296
      → length out < n
      → pick_loop p ds n gpu_type out ≡ some devs
      → length devs ≡ n
  unfolding pick_loop
  length-pick_loop [] n gpu_type out devs b h e = absurd (ground (arith, e))
  length-pick_loop (d ∷ ds) n gpu_type out devs b h e = ground (
    arith,
    length-append out (allot d ∷ []),
    length-pick_loop ds n gpu_type out devs,
    length-pick_loop ds n gpu_type (out ++ allot d ∷ []) devs,
  )

  has_room-partition :
      (job : Job) (fn : FreeNode)
      → has_room job fn ≡ true
      → (job.partition ≡ "") ⊎ (job.partition ≡ fn.partition)
  unfolding has_room
  has_room-partition job fn h =
      ground (arith, str_eq_iff job.partition "", str_eq_iff job.partition fn.partition)

  try_node-has_room :
      (job : Job) (fn : FreeNode) (devs : List AllocDevice)
      → try_node p job fn ≡ some devs
      → (has_room job fn ≡ true) × (pick_devices p fn.devices job.req_gpus job.gpu_type ≡ some devs)
  unfolding try_node
  try_node-has_room job fn devs h = ground arith

  pick_devices_counted :
      (ds : List FreeDevice) (n : ℕ) (gpu_type : String) (devs : List AllocDevice)
      → pick_devices p ds n gpu_type ≡ some devs
      → n < 4294967296
      → length devs ≡ n
  unfolding pick_devices
  pick_devices_counted ds n gpu_type devs h b =
      ground (arith, length-pick_loop ds n gpu_type [] devs)

  pick_devices-Supplies :
      (job : Job) (all : List Device) (ds : List FreeDevice) (n : ℕ) (devs : List AllocDevice)
      → All (Stems all) ds
      → pick_devices p ds n job.gpu_type ≡ some devs
      → All (Supplies p job all) devs
  unfolding pick_devices
  pick_devices-Supplies job all ds n devs st h = elim (Bool-cases (n == 0)) [
    | inl e ↦ subst (All (Supplies p job all)) (some-injective _ _ (rw e at h)) tt
    | inr e ↦ pick_loop-Supplies job all ds n [] devs st tt (rw e at h)
  ]

  module _ (now : Time) (nodes : List Node) (active pending : List Job) (backfill : Bool) where
    decide-Sound :
        (job : Job) (order : List FreeNode) (f : Fit)
        → Memᴰ job pending
        → All (Mirrors nodes) order
        → select_fit p job order ≡ some f
        → Sound p nodes pending (decide job f)
    unfolding decide
    decide-Sound job order f m h e =
        let c = select_fit-Chosen p job order f e in
        let n = All_get (Mirrors nodes) order f.at f.node h c.found in
        let t = try_node-has_room job f.node f.devices c.picked in
        record {
          job = job;
          waiting = m;
          names_job = refl;
          node = n.node;
          listed = n.listed;
          in_service = n.in_service;
          names_node = n.same_id;
          names_node_name = n.same_name;
          partition =
              subst (λ s. (job.partition ≡ "") ⊎ (job.partition ≡ s)) n.same_partition
                (has_room-partition job f.node t.0);
          counted = pick_devices_counted f.node.devices job.req_gpus job.gpu_type f.devices t.1;
          supplied =
              pick_devices-Supplies job n.node.devices f.node.devices job.req_gpus f.devices n.stems
                t.1;
        }

    plan_loop-Sound :
        (order : List FreeNode) (res : Option Time) (jobs : List Job)
        → All (Mirrors nodes) order
        → All (λ j. Memᴰ j pending) jobs
        → All (Sound p nodes pending) (plan_loop p now nodes active backfill order res jobs).0
    unfolding plan_loop
    plan_loop-Sound order res [] h m = tt
    plan_loop-Sound order res (job ∷ jobs) h m = elim (Option-cases (select_fit p job order)) [
      | inl e ↦
          let res' = reserve backfill res (reservation_time p now job nodes active) in
          subst⁻¹ Good (plan_loop-blocked p now nodes active backfill order res job jobs e)
            (plan_loop-Sound order res' jobs h m.1)
      | inr (f, e) ↦ elim (Bool-cases (may_start backfill now res job)) [
        | inl start ↦
            subst⁻¹ Good (plan_loop-placed p now nodes active backfill order res job jobs f e start)
              (
                decide-Sound job order f m.0 h e,
                plan_loop-Sound (consume f.at job f.devices order) res jobs
                    (consume-Mirrors nodes f.at job f.devices order h) m.1,
              )
        | inr wait ↦
            subst⁻¹ Good (plan_loop-held p now nodes active backfill order res job jobs f e wait)
              (plan_loop-Sound order res jobs h m.1)
      ]
    ]
      where
        Good : List Decision × List FreeNode → Type 0
        Good r = All (Sound p nodes pending) r.0

-- Each decision of a plan names a job that was pending and a node of the list that is UP, of the
-- job's partition if the job asks for one; it allots exactly as many devices as the job asks for
-- (for a request that is a uint32), each one listed on that node and of the model asked for.
pub plan-Sound :
    (p : Platform) (now : Time) (nodes : List Node) (active pending : List Job) (policy : Policy p)
    → All (Sound p nodes pending) (plan p now nodes active pending policy)
unfolding plan queue
plan-Sound p now nodes active pending policy =
    plan_loop-Sound p now nodes active pending policy.backfill (node_order p nodes active) none
      (queue p now policy.age_weight pending) (node_order-Mirrors nodes p active)
      (All-sort (λ j. Memᴰ j pending) _ pending (All-self pending))
