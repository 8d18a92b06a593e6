-- ===== src/Scheduler/Invariant.antt =====
-- A scheduling pass over the SQLite store keeps every node within its capacity.
use text.Mathlib.TextPositions.{eq_refl}
use mathlib.Core.Path.{subst}
use psychic_funicular.Base.{
  ℕ, ◌-◌, ◌≤◌, ◌≡◌, refl, Bool, String, none, some, List, [], ◌∷◌, arith, sym, if◌then◌else◌, All,
  All-map, All-sort, All-keep, All-of_map, All-of, ap, ◌∙◌, find, sum_of, sort, str_eq_iff, str_lt,
  map, keep,
}
use psychic_funicular.Platform.{Platform}
use psychic_funicular.Time.{Time}
use psychic_funicular.Model.{Node, AllocDevice, Job}
use psychic_funicular.Store.Rows.{NodeRow, JobRow, scan_job, scan_node, Db}
use psychic_funicular.Store.Nodes.{list_nodes}
use psychic_funicular.Store.Jobs.{
  has_id, is_active, list_active_jobs, list_pending_jobs, query_jobs, assign_job,
}
use psychic_funicular.Store.Keys.{UniqueJobs, count_id}
use psychic_funicular.Store.Sqlite.{sqlite}
use psychic_funicular.Scheduler.Plan.{Decision, Policy, plan}
use psychic_funicular.Scheduler.Pass.{assign_all, pass}
use psychic_funicular.Scheduler.Account.{at_node}
use psychic_funicular.Scheduler.Resource.{count_held}
use psychic_funicular.Scheduler.Capacity.{
  cpu_capacity, cpus_held, mem_capacity, mem_held, device_capacity, device_held, plan_cpus_fit,
  plan_mem_fit, plan_devices_fit,
}
use psychic_funicular.Scheduler.Assigned.{Charged, assign_all-le}

-- What the two queries of a pass return.
abbrev pub listed_nodes : Db → List Node
listed_nodes db = map scan_node (sort (λ (a b : NodeRow). str_lt a.name b.name) db.nodes)

abbrev pub active_jobs : Db → List Job
active_jobs db = map scan_job (keep is_active db.jobs)

pub sum_of-active :
    (f : Job → ℕ) (rows : List JobRow)
    → sum_of f (map scan_job (keep is_active rows))
      ≡ sum_of (λ (r : JobRow). if is_active r then f (scan_job r) else 0) rows
sum_of-active f [] = refl
sum_of-active f (r ∷ rs) = ground (arith, sum_of-active f rs)

-- The row that a query by id finds, where ids are unique.
find_after :
    (x y : JobRow) (xs : List JobRow)
    → count_id x.id xs ≡ 0
    → (find (has_id y.id) xs ≡ some y) × (1 ≤ count_id y.id xs)
    → (find (has_id y.id) (x ∷ xs) ≡ some y) × (1 ≤ count_id y.id (x ∷ xs))
find_after x y xs h k = ground (arith, str_eq_iff x.id y.id, h, k)

find_self :
    (rows : List JobRow)
    → UniqueJobs rows
    → All (λ r. (find (has_id r.id) rows ≡ some r) × (1 ≤ count_id r.id rows)) rows
find_self [] u = tt
find_self (x ∷ xs) u =
    let alone : count_id x.id xs ≡ 0 = ground (arith, u x.id, eq_refl x.id) in
    (
      ground (arith, eq_refl x.id),
      All-map (λ y h. find_after x y xs alone h) xs (find_self xs (λ id. ground (arith, u id))),
    )

-- What the job of an id asks for, read off the table.
demand_of : (JobRow → ℕ) → List JobRow → String → ℕ
demand_of f rows id = elim (find (has_id id) rows) [ some r ↦ f r | none ↦ 0 ]

demand_of-eq :
    (f : JobRow → ℕ) (rows : List JobRow)
    → UniqueJobs rows
    → All (λ r. demand_of f rows r.id ≡ f r) rows
unfolding demand_of
demand_of-eq f rows u = All-map (λ r h. rw (h.0, demand_of)) rows (find_self rows u)

All-query :
    (P : Job → Type 0) (q : JobRow → Bool) (lt : JobRow → JobRow → Bool) (db : Db)
    → All (λ r. P (scan_job r)) db.jobs
    → All P (query_jobs q lt db)
unfolding query_jobs
All-query P q lt db h = All-of_map P scan_job (sort lt (keep q db.jobs)) (
    All-sort (λ r. P (scan_job r)) lt (keep q db.jobs) (All-keep (λ r. P (scan_job r)) q db.jobs h))

nodes-assign_all : (ds : List Decision) (db : Db) → (assign_all sqlite ds db).nodes ≡ db.nodes
unfolding assign_all assign_job
nodes-assign_all [] db = refl
nodes-assign_all (d ∷ ds) db =
    nodes-assign_all ds (assign_job d.job_id d.node_id d.node_name d.devices db).1

-- The accounts of one node: processors, memory, and every device.
pub record NodeFits (id : String) (db : Db) : Type 0 where
  pub cpus_fit : cpus_held id (active_jobs db) ≤ cpu_capacity id (listed_nodes db)
  pub mem_fit : mem_held id (active_jobs db) ≤ mem_capacity id (listed_nodes db)
  pub devices_fit :
      (k : AllocDevice) → device_held id k (active_jobs db) ≤ device_capacity id k (listed_nodes db)

module _ (p : Platform) (now : Time) (policy : Policy p) (db : Db) (id : String)
    (u : UniqueJobs db.jobs) where
  abbrev decisions : List Job → List Decision
  decisions waiting = plan p now (listed_nodes db) (active_jobs db) waiting policy

  held_after :
      (taken : ℕ → ℕ → List AllocDevice → ℕ) (amount : Decision → ℕ) (waiting : List Job)
      (capacity : ℕ)
      → All (Charged taken amount) db.jobs
      → sum_of (λ (d : Decision). at_node id d.node_id (amount d)) (decisions waiting)
        ≤ capacity
          - sum_of
              (λ (j : Job). at_node id j.node_id (taken j.req_cpus j.req_mem_bytes j.devices))
              (active_jobs db)
      → sum_of
          (λ (j : Job). at_node id j.node_id (taken j.req_cpus j.req_mem_bytes j.devices))
          (active_jobs db)
        ≤ capacity
      → sum_of
          (λ (j : Job). at_node id j.node_id (taken j.req_cpus j.req_mem_bytes j.devices))
          (active_jobs (assign_all sqlite (decisions waiting) db))
        ≤ capacity
  unfolding scan_job
  held_after taken amount waiting capacity charged granted-le fits = omega (
    arith,
    granted-le,
    fits,
    sum_of-active (λ (j : Job). at_node id j.node_id (taken j.req_cpus j.req_mem_bytes j.devices))
        db.jobs,
    sum_of-active (λ (j : Job). at_node id j.node_id (taken j.req_cpus j.req_mem_bytes j.devices))
        (assign_all sqlite (decisions waiting) db).jobs,
    assign_all-le taken amount id (decisions waiting) db u charged,
  )

  All-Charged :
      (f : JobRow → ℕ) (taken : ℕ → ℕ → List AllocDevice → ℕ)
      → ((r : JobRow) (ds : List AllocDevice) → taken r.req_cpus r.req_mem_bytes ds ≡ f r)
      → All (Charged taken (λ (d : Decision). demand_of f db.jobs d.job_id)) db.jobs
  All-Charged f taken same =
      All-map (λ r h d e. same r d.devices ∙ sym h ∙ ap (demand_of f db.jobs) (sym e)) db.jobs
        (demand_of-eq f db.jobs u)

  fits_after :
      (waiting : List Job)
      → All (λ (j : Job). demand_of (λ r. r.req_cpus) db.jobs j.id ≡ j.req_cpus) waiting
      → All (λ (j : Job). demand_of (λ r. r.req_mem_bytes) db.jobs j.id ≡ j.req_mem_bytes) waiting
      → NodeFits id db
      → NodeFits id (assign_all sqlite (decisions waiting) db)
  fits_after waiting cpus mems h =
      let same = nodes-assign_all (decisions waiting) db in
      let nodes_of : List NodeRow → List Node =
        λ rows. map scan_node (sort (λ (a b : NodeRow). str_lt a.name b.name) rows) in
      record {
        cpus_fit =
            subst
              (λ rows.
                cpus_held id (active_jobs (assign_all sqlite (decisions waiting) db))
                ≤ cpu_capacity id (nodes_of rows))
              (sym same)
              (held_after (λ c m ds. c) (λ d. demand_of (λ r. r.req_cpus) db.jobs d.job_id) waiting
                (cpu_capacity id (listed_nodes db))
                (All-Charged (λ r. r.req_cpus) (λ c m ds. c) (λ r ds. refl))
                (plan_cpus_fit p now (listed_nodes db) (active_jobs db) waiting policy
                  (demand_of (λ r. r.req_cpus) db.jobs) id cpus)
                h.cpus_fit);
        mem_fit =
            subst
              (λ rows.
                mem_held id (active_jobs (assign_all sqlite (decisions waiting) db))
                ≤ mem_capacity id (nodes_of rows))
              (sym same)
              (held_after (λ c m ds. m) (λ d. demand_of (λ r. r.req_mem_bytes) db.jobs d.job_id)
                waiting (mem_capacity id (listed_nodes db))
                (All-Charged (λ r. r.req_mem_bytes) (λ c m ds. m) (λ r ds. refl))
                (plan_mem_fit p now (listed_nodes db) (active_jobs db) waiting policy
                  (demand_of (λ r. r.req_mem_bytes) db.jobs) id mems)
                h.mem_fit);
        devices_fit = λ k.
            subst
              (λ rows.
                device_held id k (active_jobs (assign_all sqlite (decisions waiting) db))
                ≤ device_capacity id k (nodes_of rows))
              (sym same)
              (held_after (λ c m ds. count_held k ds) (λ d. count_held k d.devices) waiting
                (device_capacity id k (listed_nodes db))
                (All-of (Charged (λ c m ds. count_held k ds) (λ d. count_held k d.devices))
                  (λ r d e. refl) db.jobs)
                (plan_devices_fit p now (listed_nodes db) (active_jobs db) waiting policy k id)
                (h.devices_fit k));
      }

  -- A pass over a table with one row for an id keeps a node within its capacity: if the active jobs
  -- on the node take no more processors and memory than it has in service, and no device more often
  -- than it lists it, then so it is after the pass.
  pub pass_keeps_capacity : NodeFits id db → NodeFits id (pass sqlite p now policy db)
  unfolding pass list_nodes list_active_jobs list_pending_jobs scan_job
  pass_keeps_capacity h =
      fits_after _
        (All-query (λ j. demand_of (λ r. r.req_cpus) db.jobs j.id ≡ j.req_cpus) _ _ db
          (demand_of-eq (λ r. r.req_cpus) db.jobs u))
        (All-query (λ j. demand_of (λ r. r.req_mem_bytes) db.jobs j.id ≡ j.req_mem_bytes) _ _ db
          (demand_of-eq (λ r. r.req_mem_bytes) db.jobs u))
        h
