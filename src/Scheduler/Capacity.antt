-- ===== src/Scheduler/Capacity.antt =====
-- `Plan` gives out no more than there is: processors, memory, and each device.
use psychic_funicular.Base.{
  ℕ, ◌+◌, ◌-◌, ◌≤◌, ◌≡◌, refl, String, some, List, [], ◌∷◌, ◌++◌, if◌then◌else◌, arith, map, sum_of,
  sum_of-append, sum_of-sort, str_lt, str_eq_iff, All, All-map,
}
use psychic_funicular.Platform.{Platform}
use psychic_funicular.Time.{Time}
use psychic_funicular.Model.{Device, Node, AllocDevice, Job, is_up}
use psychic_funicular.Scheduler.Free.{
  FreeDevice, FreeNode, Fit, same_key, allot, free_node, free_device, take_from, pick_loop,
  pick_devices, has_room, try_node, build_free,
}
use psychic_funicular.Scheduler.Plan.{Decision, Policy, decide, node_order, plan}
use psychic_funicular.Scheduler.Steps.{Pays, plan-cost-le}
use psychic_funicular.Scheduler.Resource.{
  Resource, count_free, count_held, cpu_resource, mem_resource, device_resource,
}
use psychic_funicular.Scheduler.Account.{at_node, free_at, job_at, capacity_at, free_at-build_free}

module _ (p : Platform) where
  cpus_enough :
      (job : Job) (fn : FreeNode) (devs : List AllocDevice)
      → try_node p job fn ≡ some devs
      → job.req_cpus ≤ fn.cpus
  unfolding try_node has_room
  cpus_enough job fn devs h = ground arith

  mem_enough :
      (job : Job) (fn : FreeNode) (devs : List AllocDevice)
      → try_node p job fn ≡ some devs
      → job.req_mem_bytes ≤ fn.mem
  unfolding try_node has_room
  mem_enough job fn devs h = ground arith

  count_held-pick_loop :
      (k : AllocDevice) (ds : List FreeDevice) (n : ℕ) (gpu_type : String)
      (out devs : List AllocDevice)
      → pick_loop p ds n gpu_type out ≡ some devs
      → count_held k devs ≤ count_held k out + count_free k ds
  unfolding pick_loop
  count_held-pick_loop k [] n gpu_type out devs h = cc
  count_held-pick_loop k (d ∷ ds) n gpu_type out devs h = ground (
    arith,
    str_eq_iff k.kind d.kind,
    str_eq_iff d.kind k.kind,
    sum_of-append (λ (u : AllocDevice). if same_key k.kind k.index u then 1 else 0) out
        (allot d ∷ []),
    count_held-pick_loop k ds n gpu_type out devs,
    count_held-pick_loop k ds n gpu_type (out ++ allot d ∷ []) devs,
  )

  device_enough :
      (k : AllocDevice) (job : Job) (fn : FreeNode) (devs : List AllocDevice)
      → try_node p job fn ≡ some devs
      → count_held k devs ≤ count_free k fn.devices
  unfolding try_node pick_devices
  device_enough k job fn devs h =
      ground (arith, count_held-pick_loop k fn.devices job.req_gpus job.gpu_type [] devs)

  module _ (r : Resource) (id : String) (amount : Decision → ℕ) where
    Pays-of_enough :
        (job : Job)
        → ((f : Fit)
            → try_node p job f.node ≡ some f.devices
            → r.taken job.req_cpus job.req_mem_bytes f.devices ≤ r.free f.node)
        → ((f : Fit) → amount (decide job f) ≡ r.taken job.req_cpus job.req_mem_bytes f.devices)
        → Pays p (λ d. at_node id d.node_id (amount d)) (free_at r id) job
    unfolding decide take_from
    Pays-of_enough job enough same f h =
        ground (arith, enough f h, same f, r.left job.req_cpus job.req_mem_bytes f.devices f.node)

    granted-le :
        (now : Time) (nodes : List Node) (active pending : List Job) (policy : Policy p)
        → All (Pays p (λ d. at_node id d.node_id (amount d)) (free_at r id)) pending
        → sum_of (λ d. at_node id d.node_id (amount d)) (plan p now nodes active pending policy)
          ≤ sum_of (capacity_at r id) nodes - sum_of (job_at r id) active
    unfolding node_order
    granted-le now nodes active pending policy h = omega (
      arith,
      plan-cost-le p (λ d. at_node id d.node_id (amount d)) (free_at r id) now nodes active pending
          policy h,
      sum_of-sort (λ a b. str_lt a.name b.name) (free_at r id) (build_free nodes active),
      free_at-build_free r id nodes active,
    )

-- The processors of the nodes in service under an id, and what the active jobs there hold.
abbrev pub cpu_capacity : String → List Node → ℕ
cpu_capacity id nodes =
    sum_of (λ (n : Node). if is_up n.state then at_node id n.id n.cpus else 0) nodes

abbrev pub cpus_held : String → List Job → ℕ
cpus_held id jobs = sum_of (λ (j : Job). at_node id j.node_id j.req_cpus) jobs

abbrev pub mem_capacity : String → List Node → ℕ
mem_capacity id nodes =
    sum_of (λ (n : Node). if is_up n.state then at_node id n.id n.mem_total_bytes else 0) nodes

abbrev pub mem_held : String → List Job → ℕ
mem_held id jobs = sum_of (λ (j : Job). at_node id j.node_id j.req_mem_bytes) jobs

-- How often a device is listed by the nodes in service under an id, and held by the jobs there.
abbrev pub device_capacity : String → AllocDevice → List Node → ℕ
device_capacity id k nodes =
    sum_of
      (λ (n : Node).
        if is_up n.state
        then at_node id n.id
            (sum_of (λ (d : Device). if same_key d.kind d.index k then 1 else 0) n.devices)
        else 0)
      nodes

abbrev pub device_held : String → AllocDevice → List Job → ℕ
device_held id k jobs = sum_of (λ (j : Job). at_node id j.node_id (count_held k j.devices)) jobs

-- What the decisions take on a node, where `demand` tells what the job of an id asks for.
abbrev pub granted : (String → ℕ) → String → List Decision → ℕ
granted demand id ds = sum_of (λ (d : Decision). at_node id d.node_id (demand d.job_id)) ds

abbrev pub device_granted : String → AllocDevice → List Decision → ℕ
device_granted id k ds = sum_of (λ (d : Decision). at_node id d.node_id (count_held k d.devices)) ds

count_free-map :
    (k : AllocDevice) (ds : List Device)
    → count_free k (map free_device ds)
      ≡ sum_of (λ (d : Device). if same_key d.kind d.index k then 1 else 0) ds
unfolding free_device
count_free-map k [] = refl
count_free-map k (d ∷ ds) = omega (arith, count_free-map k ds)

device_capacity-eq :
    (id : String) (k : AllocDevice) (nodes : List Node)
    → sum_of (capacity_at (device_resource k) id) nodes ≡ device_capacity id k nodes
unfolding free_node
device_capacity-eq id k [] = refl
device_capacity-eq id k (n ∷ ns) =
    rw (count_free-map k n.devices) (omega (arith, device_capacity-eq id k ns))

module _ (p : Platform) (now : Time) (nodes : List Node) (active pending : List Job)
    (policy : Policy p) where
  -- If `demand` gives every pending job's processors, then on every node the decisions of a plan take
  -- no more processors than the node in service has left beside its active jobs.
  pub plan_cpus_fit :
      (demand : String → ℕ) (id : String)
      → All (λ (j : Job). demand j.id ≡ j.req_cpus) pending
      → granted demand id (plan p now nodes active pending policy)
        ≤ cpu_capacity id nodes - cpus_held id active
  unfolding free_node decide
  plan_cpus_fit demand id agrees =
      granted-le p cpu_resource id (λ d. demand d.job_id) now nodes active pending policy
        (All-map
          (λ job e.
            Pays-of_enough p cpu_resource id (λ d. demand d.job_id) job
              (λ f h. cpus_enough p job f.node f.devices h) (λ f. e))
          pending agrees)

  -- If `demand` gives every pending job's memory, then on every node the decisions of a plan take no
  -- more memory than the node in service has left beside its active jobs.
  pub plan_mem_fit :
      (demand : String → ℕ) (id : String)
      → All (λ (j : Job). demand j.id ≡ j.req_mem_bytes) pending
      → granted demand id (plan p now nodes active pending policy)
        ≤ mem_capacity id nodes - mem_held id active
  unfolding free_node decide
  plan_mem_fit demand id agrees =
      granted-le p mem_resource id (λ d. demand d.job_id) now nodes active pending policy
        (All-map
          (λ job e.
            Pays-of_enough p mem_resource id (λ d. demand d.job_id) job
              (λ f h. mem_enough p job f.node f.devices h) (λ f. e))
          pending agrees)

  All-pay :
      (k : AllocDevice) (id : String) (jobs : List Job)
      → All
          (Pays p
            (λ d. at_node id d.node_id (count_held k d.devices))
            (free_at (device_resource k) id))
          jobs
  unfolding decide
  All-pay k id [] = tt
  All-pay k id (job ∷ jobs) = (
    Pays-of_enough p (device_resource k) id (λ d. count_held k d.devices) job
        (λ f h. device_enough p k job f.node f.devices h) (λ f. refl),
    All-pay k id jobs,
  )

  -- The decisions of a plan grant a device of a node at most as often as the node in service lists it,
  -- less the times that active jobs there hold it.
  pub plan_devices_fit :
      (k : AllocDevice) (id : String)
      → device_granted id k (plan p now nodes active pending policy)
        ≤ device_capacity id k nodes - device_held id k active
  plan_devices_fit k id = omega (
    arith,
    granted-le p (device_resource k) id (λ d. count_held k d.devices) now nodes active pending
        policy (All-pay k id pending),
    device_capacity-eq id k nodes,
  )
