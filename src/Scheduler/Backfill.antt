-- ===== src/Scheduler/Backfill.antt =====
-- What EASY backfill promises: no job that starts behind a reservation runs past it.
use mathlib.Core.Path.{subst⁻¹}
use psychic_funicular.Base.{
  ◌≡◌, refl, true, Option, none, some, List, [], ◌∷◌, inl, inr, arith, All, All-map, Memᴰ,
  Bool-cases, Option-cases,
}
use psychic_funicular.Base.Int.{pos, ◌≤ℤ◌}
use psychic_funicular.Platform.{Platform}
use psychic_funicular.Time.{Time, add, seconds}
use psychic_funicular.Model.{Node, Job}
use psychic_funicular.Scheduler.Free.{FreeNode, Fit, select_fit, consume}
use psychic_funicular.Scheduler.Reservation.{backfill_allowed, reservation_time}
use psychic_funicular.Scheduler.Plan.{Decision, decide, may_start, reserve, plan_loop}
use psychic_funicular.Scheduler.Steps.{plan_loop-blocked, plan_loop-placed, plan_loop-held}

-- The decision is about one of the jobs, which has a time limit and ends by `t` if it starts now.
pub record EndsBy (now t : Time) (jobs : List Job) (d : Decision) : Type 0 where
  pub job : Job
  pub waiting : Memᴰ job jobs
  pub names_job : d.job_id ≡ job.id
  pub bounded : ¬ (job.walltime_sec ≤ℤ pos 0)
  pub ends : add now (seconds job.walltime_sec) ≤ℤ t

backfill_allowed_ends :
    (now t : Time) (job : Job)
    → backfill_allowed now job t ≡ true
    → (¬ (job.walltime_sec ≤ℤ pos 0)) × (add now (seconds job.walltime_sec) ≤ℤ t)
unfolding backfill_allowed
backfill_allowed_ends now t job h = ground arith

EndsBy-later :
    (now t : Time) (job : Job) (jobs : List Job) (d : Decision)
    → EndsBy now t jobs d
    → EndsBy now t (job ∷ jobs) d
EndsBy-later now t job jobs d h = record {
  job = h.job;
  waiting = Memᴰ.tail h.waiting;
  names_job = h.names_job;
  bounded = h.bounded;
  ends = h.ends;
}

module _ (p : Platform) (now : Time) (nodes : List Node) (active : List Job) (t : Time) where
  decide-EndsBy :
      (job : Job) (jobs : List Job) (f : Fit)
      → may_start true now (some t) job ≡ true
      → EndsBy now t (job ∷ jobs) (decide job f)
  unfolding decide may_start
  decide-EndsBy job jobs f h =
      let (bounded, ends) = backfill_allowed_ends now t job (ground (arith, h)) in
      record {
        job = job;
        waiting = Memᴰ.head refl;
        names_job = refl;
        bounded = bounded;
        ends = ends;
      }

  backfilled :
      (order : List FreeNode) (jobs : List Job)
      → All (EndsBy now t jobs) (plan_loop p now nodes active true order (some t) jobs).0
  unfolding plan_loop reserve
  backfilled order [] = tt
  backfilled order (job ∷ jobs) = elim (Option-cases (select_fit p job order)) [
    | inl e ↦
        subst⁻¹ Good (plan_loop-blocked p now nodes active true order (some t) job jobs e)
          (later _ (backfilled order jobs))
    | inr (f, e) ↦ elim (Bool-cases (may_start true now (some t) job)) [
      | inl start ↦
          subst⁻¹ Good (plan_loop-placed p now nodes active true order (some t) job jobs f e start)
            (
              decide-EndsBy job jobs f start,
              later _ (backfilled (consume f.at job f.devices order) jobs),
            )
      | inr wait ↦
          subst⁻¹ Good (plan_loop-held p now nodes active true order (some t) job jobs f e wait)
            (later _ (backfilled order jobs))
    ]
  ]
    where
      Good : List Decision × List FreeNode → Type 0
      Good r = All (EndsBy now t (job ∷ jobs)) r.0

      later : (ds : List Decision) → All (EndsBy now t jobs) ds → All (EndsBy now t (job ∷ jobs)) ds
      later ds h = All-map (EndsBy-later now t job jobs) ds h

  -- With backfill on, let the loop of `Plan` meet a job that does not fit while nothing is reserved
  -- yet, and let its reservation be for the time `t`. Then every job that the plan places behind it has
  -- a time limit, and ends by `t` if it starts now.
  pub backfill_keeps_reservation :
      (order : List FreeNode) (blocked : Job) (jobs : List Job)
      → select_fit p blocked order ≡ none
      → reservation_time p now blocked nodes active ≡ some t
      → All (EndsBy now t jobs) (plan_loop p now nodes active true order none (blocked ∷ jobs)).0
  backfill_keeps_reservation order blocked jobs e r =
      subst⁻¹ Good (plan_loop-blocked p now nodes active true order none blocked jobs e)
        (subst⁻¹ AtReserve r (unfold reserve in backfilled order jobs))
    where
      Good : List Decision × List FreeNode → Type 0
      Good r = All (EndsBy now t jobs) r.0

      AtReserve : Option Time → Type 0
      AtReserve o = Good (plan_loop p now nodes active true order (reserve true none o) jobs)
