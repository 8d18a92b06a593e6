-- ===== src/Agent/Outcome.antt =====
-- What the agent reports, and what the server reads in it.
use psychic_funicular.Base.{
  ◌≡◌, refl, ◌↔◌, ◌⊎◌, inl, inr, Bool, true, false, String, List, [], ◌∷◌, arith, str_eq,
}
use psychic_funicular.Model.{
  JobState, pending, assigned, running, completed, failed, cancelling, cancelled, timeout,
  is_terminal_state, state_name,
}
use psychic_funicular.Server.Messages.{starts, ends, change_of}
use psychic_funicular.Agent.Run.{
  WaitError, no_error, exit_error, other_error, Report, Fate, no_workdir, no_pipe, no_start, ran,
  classify, reports,
}

-- The reports of a run, as the server reads them: RUNNING at most once and first, then one end.
abbrev pub Complete : List Report → Type 0
Complete rs =
    (last : Report) × (is_terminal_state last.state ≡ true)
    × (change_of (state_name last.state) ≡ ends last.state)
    × ((rs ≡ last ∷ [])
        ⊎ ((first : Report) × (change_of (state_name first.state) ≡ starts)
            × (rs ≡ first ∷ last ∷ [])))

understood : (s : JobState) → is_terminal_state s ≡ true → change_of (state_name s) ≡ ends s
unfolding change_of
understood completed h = refl
understood failed h = refl
understood cancelled h = refl
understood timeout h = refl
understood pending h = absurd (ground (arith, h))
understood assigned h = absurd (ground (arith, h))
understood running h = absurd (ground (arith, h))
understood cancelling h = absurd (ground (arith, h))

classify-terminal :
    (w : WaitError) (reason : String) (timed_out : Bool)
    → is_terminal_state (classify w reason timed_out).state ≡ true
unfolding classify
classify-terminal no_error reason timed_out = ground arith
classify-terminal (exit_error code) reason timed_out = ground arith
classify-terminal (other_error e) reason timed_out = refl

-- Wherever a run fails and however its process ends, its reports are one terminal state, or RUNNING and
-- then one terminal state, and the server understands each of them.
pub reports-Complete : (f : Fate) → Complete (reports f)
unfolding reports change_of
reports-Complete (no_workdir e) = (_, refl, understood failed refl, inl refl)
reports-Complete (no_pipe e) = (_, refl, understood failed refl, inl refl)
reports-Complete (no_start e) = (_, refl, understood failed refl, inl refl)
reports-Complete (ran w reason timed_out) =
    let c = classify w reason timed_out in
    let t = classify-terminal w reason timed_out in
    (c, t, understood c.state t, inr (_, refl, refl))

-- A run whose process has ended is COMPLETED exactly if the process ended without an error, was not
-- cancelled, and stayed within its time.
pub completed_iff :
    (w : WaitError) (reason : String) (timed_out : Bool)
    → ((classify w reason timed_out).state ≡ completed)
      ↔ ((w ≡ no_error) × (str_eq reason "cancel" ≡ false) × (timed_out ≡ false))
unfolding classify
completed_iff no_error reason timed_out =
    (λ h. (refl, ground (arith, h), ground (arith, h)), λ h. ground (arith, h))
completed_iff (exit_error code) reason timed_out =
    (λ h. absurd (ground (arith, h)), λ h. absurd (ground (arith, h)))
completed_iff (other_error e) reason timed_out =
    (λ h. absurd (ground (arith, h)), λ h. absurd (ground (arith, h)))
