-- ===== src/Store/Finished.antt =====
-- A finished job stays finished, whatever statements follow.
use mathlib.Core.Path.{subst}
use mathlib.Core.Option.{some-injective}
use psychic_funicular.Base.{ℕ, zero, suc, ◌≡◌, refl, ap, true, Option, some, List, arith, get_elem?}
use psychic_funicular.Model.{JobState, is_terminal_state}
use psychic_funicular.Store.Rows.{JobRow, Db}
use psychic_funicular.Store.Lifecycle.{
  ◌⟶◌, assign, launch, withdraw, stop_assigned, stop_running, report, ◌⟶*◌, here, step, Advances,
  Evolves, added, kept,
}
use psychic_funicular.Store.Keys.{UniqueJobs}
use psychic_funicular.Store.Operations.{JobOp, apply_all, jobs_follow_lifecycle}

terminal_step : {s t : JobState} → s ⟶ t → is_terminal_state s ≡ true → is_terminal_state t ≡ true
terminal_step assign h = absurd (ground (arith, h))
terminal_step launch h = absurd (ground (arith, h))
terminal_step withdraw h = refl
terminal_step stop_assigned h = absurd (ground (arith, h))
terminal_step stop_running h = absurd (ground (arith, h))
terminal_step (report e) h = e

terminal_path : {s t : JobState} → s ⟶* t → is_terminal_state s ≡ true → is_terminal_state t ≡ true
terminal_path here h = h
terminal_path (step a p) h = terminal_path p (terminal_step a h)

-- The row at a place, after the table has evolved.
abbrev pub row_at : ℕ → List JobRow → Option JobRow
row_at i rows = get_elem? rows i

Evolves-get :
    {rs rs' : List JobRow} (i : ℕ) (r : JobRow)
    → Evolves rs rs'
    → row_at i rs ≡ some r
    → (r' : JobRow) × (row_at i rs' ≡ some r') × Advances r r'
Evolves-get i r (added rs) e = absurd (ground arith)
Evolves-get zero r (kept {r' = r'} a e) h =
    (r', refl, subst (λ x. Advances x r') (some-injective _ _ h) a)
Evolves-get (suc i) r (kept a e) h = Evolves-get i r e h

-- On a table with one row for an id, a job that has reached a terminal state is in a terminal state after
-- every sequence of statements, at its place in the table and under its id.
pub finished_stay_finished :
    (ops : List JobOp) (db : Db) (i : ℕ) (r : JobRow)
    → UniqueJobs db.jobs
    → row_at i db.jobs ≡ some r
    → is_terminal_state r.state ≡ true
    → (r' : JobRow) × (row_at i (apply_all ops db).jobs ≡ some r')
      × (r'.id ≡ r.id)
      × (is_terminal_state r'.state ≡ true)
finished_stay_finished ops db i r u h t =
    let (r', e, a) = Evolves-get i r (jobs_follow_lifecycle ops db u).2 h in
    (r', e, ap (λ s. s.id) a.same_submission, terminal_path a.path t)
