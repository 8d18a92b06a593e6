-- ===== src/Scheduler/Assigned.antt =====
-- What `AssignJob` adds to the account of a resource: at most the cost of the decision.
use psychic_funicular.Base.{
  ℕ, ◌+◌, ◌≤◌, ◌≡◌, refl, false, String, List, [], ◌∷◌, inl, inr, arith, sym, if◌then◌else◌,
  Bool-cases, All, sum_of, str_eq_iff,
}
use psychic_funicular.Model.{AllocDevice}
use psychic_funicular.Store.Rows.{JobRow, Db}
use psychic_funicular.Store.Jobs.{
  has_id, is_active, update_where, can_assign, assign_row, assign_job,
}
use psychic_funicular.Store.Keys.{UniqueJobs, count_id, count_id-none, count_id-update_where}
use psychic_funicular.Store.Sqlite.{sqlite}
use psychic_funicular.Scheduler.Plan.{Decision}
use psychic_funicular.Scheduler.Pass.{assign_all}
use psychic_funicular.Scheduler.Account.{at_node}

-- The cost that a decision is charged is what the row of its job takes with those devices.
abbrev pub Charged : (ℕ → ℕ → List AllocDevice → ℕ) → (Decision → ℕ) → JobRow → Type 0
Charged taken amount r =
    (d : Decision) → d.job_id ≡ r.id → taken r.req_cpus r.req_mem_bytes d.devices ≡ amount d

module _ (taken : ℕ → ℕ → List AllocDevice → ℕ) (amount : Decision → ℕ) (id : String) where
  abbrev pub row_at : JobRow → ℕ
  row_at r =
      if is_active r then at_node id r.node_id (taken r.req_cpus r.req_mem_bytes r.devices) else 0

  none_assigned :
      (d : Decision) (rows : List JobRow)
      → All (λ r. has_id d.job_id r ≡ false) rows
      → sum_of row_at
          (update_where (can_assign d.job_id) (assign_row d.node_id d.node_name d.devices) rows)
        ≡ sum_of row_at rows
  unfolding update_where
  none_assigned d [] h = refl
  none_assigned d (r ∷ rs) h = rw h.0 (omega (arith, none_assigned d rs h.1))

  one_assigned :
      (d : Decision) (rows : List JobRow)
      → count_id d.job_id rows ≤ 1
      → All (Charged taken amount) rows
      → sum_of row_at
          (update_where (can_assign d.job_id) (assign_row d.node_id d.node_name d.devices) rows)
        ≤ sum_of row_at rows + at_node id d.node_id (amount d)
  unfolding update_where
  one_assigned d [] u h = omega arith
  one_assigned d (r ∷ rs) u h = elim (Bool-cases (has_id d.job_id r)) [
    | inr e ↦ rw e (omega (arith, one_assigned d rs (ground (arith, u, e)) h.1))
    | inl e ↦
        let rest = none_assigned d rs (count_id-none d.job_id rs (ground (arith, u, e))) in
        let cost = h.0 d (sym ((str_eq_iff r.id d.job_id).0 e)) in rw e (ground (arith, rest, cost))
  ]

  Charged-update_where :
      (d : Decision) (rows : List JobRow)
      → All (Charged taken amount) rows
      → All
          (Charged taken amount)
          (update_where (can_assign d.job_id) (assign_row d.node_id d.node_name d.devices) rows)
  unfolding update_where
  Charged-update_where d [] h = tt
  Charged-update_where d (r ∷ rs) h = elim (Bool-cases (can_assign d.job_id r)) [
    | inl e ↦ rw e (h.0, Charged-update_where d rs h.1)
    | inr e ↦ rw e (h.0, Charged-update_where d rs h.1)
  ]

  -- After a list of decisions the account has grown by their cost at most.
  pub assign_all-le :
      (ds : List Decision) (db : Db)
      → UniqueJobs db.jobs
      → All (Charged taken amount) db.jobs
      → sum_of row_at (assign_all sqlite ds db).jobs
        ≤ sum_of row_at db.jobs + sum_of (λ (d : Decision). at_node id d.node_id (amount d)) ds
  unfolding assign_all assign_job
  assign_all-le [] db u h = omega arith
  assign_all-le (d ∷ ds) db u h = omega (
    arith,
    one_assigned d db.jobs (u d.job_id) h,
    assign_all-le ds (assign_job d.job_id d.node_id d.node_name d.devices db).1
        (λ k.
          rw
            (count_id-update_where k (can_assign d.job_id)
              (assign_row d.node_id d.node_name d.devices) db.jobs (λ r. refl))
            (u k))
        (Charged-update_where d db.jobs h),
  )
