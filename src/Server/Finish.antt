-- ===== src/Server/Finish.antt =====
-- Who hears of the end of a job.
use psychic_funicular.Base.{
  ◌≡◌, refl, true, false, String, List, [], ◌∷◌, arith, keep, map, str_eq, lookup,
}
use psychic_funicular.Base.Int.{ℤ}
use psychic_funicular.Model.{
  Event, Job, JobState, pending, assigned, running, completed, failed, cancelling, cancelled,
  timeout, is_terminal_state, same_state,
}
use psychic_funicular.Format.{label_ref}
use psychic_funicular.Notify.Rules.{
  NotifyRule, matches, resolve_recipients, default_rules, label_of,
}
use psychic_funicular.Server.Messages.{job_event}

-- The recipients of the rules that match an event.
abbrev pub told : List NotifyRule → Event → List (List String)
told rules ev =
    map (λ (r : NotifyRule). resolve_recipients r.to ev)
      (keep (λ (r : NotifyRule). matches r ev) rules)

-- Under the default rules, the event of a job that has ended in any way but a cancellation, with an
-- owner, matches one rule, and that rule is for the owner and nobody else.
pub owner_is_told :
    (j : Job) (job_id : String) (state : JobState) (code : ℤ)
    → is_terminal_state state ≡ true
    → same_state state cancelled ≡ false
    → str_eq j.owner "" ≡ false
    → told default_rules (job_event j job_id state code) ≡ (j.owner ∷ []) ∷ []
unfolding matches resolve_recipients default_rules job_event label_ref label_of lookup
owner_is_told j job_id completed code t c o = rw o refl
owner_is_told j job_id failed code t c o = rw o refl
owner_is_told j job_id timeout code t c o = rw o refl
owner_is_told j job_id cancelled code t c o = absurd (ground (arith, c))
owner_is_told j job_id pending code t c o = absurd (ground (arith, t))
owner_is_told j job_id assigned code t c o = absurd (ground (arith, t))
owner_is_told j job_id running code t c o = absurd (ground (arith, t))
owner_is_told j job_id cancelling code t c o = absurd (ground (arith, t))
