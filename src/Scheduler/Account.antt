-- ===== src/Scheduler/Account.antt =====
-- `buildFree` keeps the account of a resource: what is free on a node is at most its capacity less
-- what the active jobs there hold.
use psychic_funicular.Base.{
  ℕ, ◌+◌, ◌-◌, ◌≤◌, ◌≡◌, refl, String, List, [], ◌∷◌, inl, inr, if◌then◌else◌, arith, sum_of,
  str_eq, str_eq_iff, Bool-cases,
}
use psychic_funicular.Model.{Node, Job, is_up}
use psychic_funicular.Scheduler.Free.{
  FreeNode, free_node, put_free, collect_free, take_from, charge, charge_all, build_free,
}
use psychic_funicular.Scheduler.Resource.{Resource}

abbrev pub at_node : String → String → ℕ → ℕ
at_node id here n = if str_eq here id then n else 0

-- The entries of `frees` under one id.
abbrev pub entries : String → List FreeNode → ℕ
entries id frees = sum_of (λ (fn : FreeNode). at_node id fn.id 1) frees

module _ (r : Resource) (id : String) where
  abbrev pub free_at : FreeNode → ℕ
  free_at fn = at_node id fn.id (r.free fn)

  abbrev pub job_at : Job → ℕ
  job_at j = at_node id j.node_id (r.taken j.req_cpus j.req_mem_bytes j.devices)

  -- The capacity of the nodes in service.
  abbrev pub capacity_at : Node → ℕ
  capacity_at n = if is_up n.state then free_at (free_node n) else 0

module _ (id : String) where
  entries-put_free-le :
      (fn : FreeNode) (frees : List FreeNode)
      → entries id (put_free fn frees) ≤ entries id frees + at_node id fn.id 1
  unfolding put_free
  entries-put_free-le fn [] = omega arith
  entries-put_free-le fn (g ∷ gs) = ground (arith, entries-put_free-le fn gs)

  entries-put_free :
      (fn : FreeNode) (frees : List FreeNode)
      → entries id frees ≤ 1
      → entries id (put_free fn frees) ≤ 1
  unfolding put_free
  entries-put_free fn [] h = ground arith
  entries-put_free fn (g ∷ gs) h = ground (
    arith,
    str_eq_iff g.id fn.id,
    str_eq_iff g.id id,
    str_eq_iff fn.id id,
    entries-put_free-le fn gs,
    entries-put_free fn gs,
  )

  entries-collect_free :
      (frees : List FreeNode) (ns : List Node)
      → entries id frees ≤ 1
      → entries id (collect_free frees ns) ≤ 1
  unfolding collect_free
  entries-collect_free frees [] h = h
  entries-collect_free frees (n ∷ ns) h = elim (Bool-cases (is_up n.state)) [
    | inl e ↦ rw e (
        entries-collect_free (put_free (free_node n) frees) ns
          (entries-put_free (free_node n) frees h))
    | inr e ↦ rw e (entries-collect_free frees ns h)
  ]

module _ (r : Resource) (id : String) where
  free_at-put_free :
      (fn : FreeNode) (frees : List FreeNode)
      → sum_of (free_at r id) (put_free fn frees) ≤ free_at r id fn + sum_of (free_at r id) frees
  unfolding put_free
  free_at-put_free fn [] = omega arith
  free_at-put_free fn (g ∷ gs) = ground (arith, free_at-put_free fn gs)

  free_at-collect_free :
      (frees : List FreeNode) (ns : List Node)
      → sum_of (free_at r id) (collect_free frees ns)
        ≤ sum_of (free_at r id) frees + sum_of (capacity_at r id) ns
  unfolding collect_free
  free_at-collect_free frees [] = omega arith
  free_at-collect_free frees (n ∷ ns) = elim (Bool-cases (is_up n.state)) [
    | inl e ↦ rw e (
        omega (
          arith,
          free_at-collect_free (put_free (free_node n) frees) ns,
          free_at-put_free (free_node n) frees,
        ))
    | inr e ↦ rw e (omega (arith, free_at-collect_free frees ns))
  ]

  free_at_of_no_entry :
      (frees : List FreeNode) → entries id frees ≡ 0 → sum_of (free_at r id) frees ≡ 0
  free_at_of_no_entry [] h = refl
  free_at_of_no_entry (g ∷ gs) h = ground (arith, free_at_of_no_entry gs)

  take-free_at :
      (job : Job) (fn : FreeNode)
      → free_at r id (take_from job.req_cpus job.req_mem_bytes job.devices fn)
        ≤ free_at r id fn - at_node id fn.id (r.taken job.req_cpus job.req_mem_bytes job.devices)
  unfolding take_from
  take-free_at job fn = ground (arith, r.left job.req_cpus job.req_mem_bytes job.devices fn)

  free_at-charge :
      (job : Job) (frees : List FreeNode)
      → entries id frees ≤ 1
      → sum_of (free_at r id) (charge job frees) ≤ sum_of (free_at r id) frees - job_at r id job
  unfolding charge
  free_at-charge job [] h = omega arith
  free_at-charge job (g ∷ gs) h = ground (
    arith,
    str_eq_iff g.id job.node_id,
    str_eq_iff g.id id,
    str_eq_iff job.node_id id,
    free_at_of_no_entry gs,
    take-free_at job g,
    free_at-charge job gs,
  )

  entries-charge :
      (job : Job) (frees : List FreeNode) → entries id (charge job frees) ≡ entries id frees
  unfolding charge take_from
  entries-charge job [] = refl
  entries-charge job (g ∷ gs) = ground (arith, entries-charge job gs)

  free_at-charge_all :
      (frees : List FreeNode) (jobs : List Job)
      → entries id frees ≤ 1
      → sum_of (free_at r id) (charge_all frees jobs)
        ≤ sum_of (free_at r id) frees - sum_of (job_at r id) jobs
  unfolding charge_all
  free_at-charge_all frees [] h = omega arith
  free_at-charge_all frees (job ∷ jobs) h = omega (
    arith,
    free_at-charge job frees h,
    entries-charge job frees,
    free_at-charge_all (charge job frees) jobs (omega (arith, entries-charge job frees)),
  )

  -- The account of `buildFree`.
  pub free_at-build_free :
      (nodes : List Node) (active : List Job)
      → sum_of (free_at r id) (build_free nodes active)
        ≤ sum_of (capacity_at r id) nodes - sum_of (job_at r id) active
  unfolding build_free
  free_at-build_free nodes active = omega (
    arith,
    free_at-charge_all (collect_free [] nodes) active
        (entries-collect_free id [] nodes (omega arith)),
    free_at-collect_free [] nodes,
  )
