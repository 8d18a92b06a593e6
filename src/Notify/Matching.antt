-- ===== src/Notify/Matching.antt =====
-- When a rule matches an event.
use psychic_funicular.Base.{
  true, ◌||◌, ◌≤◌, String, List, [], ◌∷◌, ◌≡◌, refl, inl, inr, ◌↔◌, ◌⊎◌, arith, Bool-cases, All,
  all, str_eq, str_eq_iff, str_mem,
}
use psychic_funicular.Model.{Event}
use psychic_funicular.Notify.Rules.{NotifyRule, severity_rank, label_of, is_nil, matches}

-- The type is one of the rule's, or the rule names none.
abbrev pub TypeFits : NotifyRule → Event → Type 0
TypeFits r ev = (r.match.types ≡ []) ⊎ (str_mem ev.kind r.match.types ≡ true)

-- The event has each label of the rule, with its value.
abbrev pub LabelsFit : NotifyRule → Event → Type 0
LabelsFit r ev = All (λ (l : String × String). label_of ev l.0 ≡ l.1) r.match.labels

-- The event is as severe as the rule asks, if it asks.
abbrev pub SeverityFits : NotifyRule → Event → Type 0
SeverityFits r ev =
    (r.match.min_severity ≡ "") ⊎ (severity_rank r.match.min_severity ≤ severity_rank ev.severity)

all-labels :
    (ev : Event) (ls : List (String × String))
    → (all (λ (l : String × String). str_eq (label_of ev l.0) l.1) ls ≡ true)
      ↔ All (λ (l : String × String). label_of ev l.0 ≡ l.1) ls
all-labels ev [] = (λ _. tt, λ _. refl)
all-labels ev (l ∷ ls) = (
  λ h. (ground (arith, str_eq_iff (label_of ev l.0) l.1), (all-labels ev ls).0 (ground arith)),
  λ h. ground (arith, h.0, str_eq_iff (label_of ev l.0) l.1, (all-labels ev ls).1 h.1),
)

is_nil-eq : (ss : List String) → is_nil ss ≡ true → ss ≡ []
is_nil-eq [] h = refl
is_nil-eq (s ∷ ss) h = absurd (ground arith)

-- A rule matches an event exactly if the type, the labels and the severity fit.
pub matches_iff :
    (r : NotifyRule) (ev : Event)
    → (matches r ev ≡ true) ↔ (TypeFits r ev × LabelsFit r ev × SeverityFits r ev)
unfolding matches
matches_iff r ev = (λ h. (type_fits h, labels_fit h, severity_fits h), λ h. all_fit h.0 h.1 h.2)
  where
    types : List String
    types = r.match.types

    labels : List (String × String)
    labels = r.match.labels

    type_fits : matches r ev ≡ true → TypeFits r ev
    type_fits h = elim (Bool-cases (is_nil types)) [
      | inl e ↦ inl (is_nil-eq types e)
      | inr e ↦ inr (ground (arith, h, e))
    ]

    labels_fit : matches r ev ≡ true → LabelsFit r ev
    labels_fit h = (all-labels ev labels).0 (ground (arith, h))

    severity_fits : matches r ev ≡ true → SeverityFits r ev
    severity_fits h = elim (Bool-cases (str_eq r.match.min_severity "")) [
      | inl e ↦ inl ((str_eq_iff r.match.min_severity "").0 e)
      | inr e ↦ inr (ground (arith, h, e))
    ]

    nil_type : TypeFits r ev → (is_nil types || str_mem ev.kind types) ≡ true
    nil_type (inl e) = rw e refl
    nil_type (inr e) = ground (arith, e)

    all_fit : TypeFits r ev → LabelsFit r ev → SeverityFits r ev → matches r ev ≡ true
    all_fit t l s =
        ground
          (arith, (all-labels ev labels).1 l, nil_type t, s, str_eq_iff r.match.min_severity "")
