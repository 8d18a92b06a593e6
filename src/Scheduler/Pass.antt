-- ===== src/Scheduler/Pass.antt =====
-- scheduler.go: one scheduling pass, over any store.
use psychic_funicular.Base.{List, [], ◌∷◌}
use psychic_funicular.Platform.{Platform}
use psychic_funicular.Time.{Time}
use psychic_funicular.Store.Api.{Store, ok, err}
use psychic_funicular.Scheduler.Plan.{Decision, Policy, plan}

module _ (s : Store) where
  open s use {State, list_nodes, list_active_jobs, list_pending_jobs, assign_job}

  -- A decision whose assignment fails is logged and skipped.
  unfoldable pub assign_all : List Decision → State → State
  assign_all [] st = st
  assign_all (d ∷ ds) st = assign_all ds (assign_job d.job_id d.node_id d.node_name d.devices st).1

  unfoldable pub pass : (p : Platform) → Time → Policy p → State → State
  pass p now policy st = elim (list_nodes st) [
    | err _ ↦ st
    | ok nodes ↦ elim (list_active_jobs st) [
      | err _ ↦ st
      | ok active ↦ elim (list_pending_jobs st) [
        | err _ ↦ st
        | ok pending ↦ assign_all (plan p now nodes active pending policy) st
      ]
    ]
  ]
