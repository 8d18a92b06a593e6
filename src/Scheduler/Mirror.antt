-- ===== src/Scheduler/Mirror.antt =====
-- Each free node that `Plan` works on stands for a node of the list that is UP.
use psychic_funicular.Base.{
  ℕ, zero, suc, ◌≡◌, refl, true, not, List, [], ◌∷◌, inl, inr, map, str_eq, str_lt, All, All-keep,
  All-self, All-sort, Memᴰ, Bool-cases,
}
use psychic_funicular.Platform.{Platform}
use psychic_funicular.Model.{Device, Node, AllocDevice, Job, is_up}
use psychic_funicular.Scheduler.Free.{
  FreeDevice, FreeNode, free_node, free_device, take_from, used_in, consume, put_free, collect_free,
  charge, charge_all, build_free,
}
use psychic_funicular.Scheduler.Plan.{node_order}

-- A device of the view stands for one of the node.
pub record Stems (devs : List Device) (d : FreeDevice) : Type 0 where
  pub device : Device
  pub listed : Memᴰ device devs
  pub same_kind : d.kind ≡ device.kind
  pub same_index : d.index ≡ device.index
  pub same_name : d.name ≡ device.name

-- A node of the view stands for a node in service.
pub record Mirrors (nodes : List Node) (fn : FreeNode) : Type 0 where
  pub node : Node
  pub listed : Memᴰ node nodes
  pub in_service : is_up node.state ≡ true
  pub same_id : fn.id ≡ node.id
  pub same_name : fn.name ≡ node.name
  pub same_partition : fn.partition ≡ node.partition
  pub stems : All (Stems node.devices) fn.devices

free_device-Stems :
    (all ds : List Device) → All (λ d. Memᴰ d all) ds → All (Stems all) (map free_device ds)
unfolding free_device
free_device-Stems all [] h = tt
free_device-Stems all (d ∷ ds) h = (
  record { device = d; listed = h.0; same_kind = refl; same_index = refl; same_name = refl },
  free_device-Stems all ds h.1,
)

module _ (nodes : List Node) where
  free_node-Mirrors : (n : Node) → Memᴰ n nodes → is_up n.state ≡ true → Mirrors nodes (free_node n)
  unfolding free_node
  free_node-Mirrors n m e = record {
    node = n;
    listed = m;
    in_service = e;
    same_id = refl;
    same_name = refl;
    same_partition = refl;
    stems = free_device-Stems n.devices n.devices (All-self n.devices);
  }

  pub take_from-Mirrors :
      (cpus mem : ℕ) (devs : List AllocDevice) (fn : FreeNode)
      → Mirrors nodes fn
      → Mirrors nodes (take_from cpus mem devs fn)
  unfolding take_from
  take_from-Mirrors cpus mem devs fn m = record {
    node = m.node;
    listed = m.listed;
    in_service = m.in_service;
    same_id = m.same_id;
    same_name = m.same_name;
    same_partition = m.same_partition;
    stems = All-keep (Stems m.node.devices) (λ d. not (used_in devs d)) fn.devices m.stems;
  }

  put_free-Mirrors :
      (fn : FreeNode) (frees : List FreeNode)
      → Mirrors nodes fn
      → All (Mirrors nodes) frees
      → All (Mirrors nodes) (put_free fn frees)
  unfolding put_free
  put_free-Mirrors fn [] m h = (m, tt)
  put_free-Mirrors fn (g ∷ gs) m h = elim (Bool-cases (str_eq g.id fn.id)) [
    | inl e ↦ rw e (m, h.1)
    | inr e ↦ rw e (h.0, put_free-Mirrors fn gs m h.1)
  ]

  collect_free-Mirrors :
      (frees : List FreeNode) (ns : List Node)
      → All (Mirrors nodes) frees
      → All (λ n. Memᴰ n nodes) ns
      → All (Mirrors nodes) (collect_free frees ns)
  unfolding collect_free
  collect_free-Mirrors frees [] h k = h
  collect_free-Mirrors frees (n ∷ ns) h k = elim (Bool-cases (is_up n.state)) [
    | inl e ↦ rw e (
        collect_free-Mirrors (put_free (free_node n) frees) ns
          (put_free-Mirrors (free_node n) frees (free_node-Mirrors n k.0 e) h) k.1)
    | inr e ↦ rw e (collect_free-Mirrors frees ns h k.1)
  ]

  charge-Mirrors :
      (job : Job) (frees : List FreeNode)
      → All (Mirrors nodes) frees
      → All (Mirrors nodes) (charge job frees)
  unfolding charge
  charge-Mirrors job [] h = tt
  charge-Mirrors job (g ∷ gs) h = elim (Bool-cases (str_eq g.id job.node_id)) [
    | inl e ↦ rw e (take_from-Mirrors job.req_cpus job.req_mem_bytes job.devices g h.0, h.1)
    | inr e ↦ rw e (h.0, charge-Mirrors job gs h.1)
  ]

  charge_all-Mirrors :
      (frees : List FreeNode) (jobs : List Job)
      → All (Mirrors nodes) frees
      → All (Mirrors nodes) (charge_all frees jobs)
  unfolding charge_all
  charge_all-Mirrors frees [] h = h
  charge_all-Mirrors frees (j ∷ js) h =
      charge_all-Mirrors (charge j frees) js (charge-Mirrors j frees h)

  pub consume-Mirrors :
      (at : ℕ) (job : Job) (devs : List AllocDevice) (order : List FreeNode)
      → All (Mirrors nodes) order
      → All (Mirrors nodes) (consume at job devs order)
  unfolding consume
  consume-Mirrors at job devs [] h = tt
  consume-Mirrors zero job devs (x ∷ xs) h =
      (take_from-Mirrors job.req_cpus job.req_mem_bytes devs x h.0, h.1)
  consume-Mirrors (suc at) job devs (x ∷ xs) h = (h.0, consume-Mirrors at job devs xs h.1)

  pub node_order-Mirrors :
      (p : Platform) (active : List Job) → All (Mirrors nodes) (node_order p nodes active)
  unfolding node_order build_free
  node_order-Mirrors p active =
      All-sort (Mirrors nodes) (λ a b. str_lt a.name b.name)
        (charge_all (collect_free [] nodes) active)
        (charge_all-Mirrors (collect_free [] nodes) active
          (collect_free-Mirrors [] nodes tt (All-self nodes)))
