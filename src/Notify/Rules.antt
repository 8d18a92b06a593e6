-- ===== src/Notify/Rules.antt =====
-- rule.go, with the rules of internal/config and the constants of internal/event.
use psychic_funicular.Base.{
  ℕ, ◌*◌, Bool, true, false, not, ◌&&◌, String, none, some, List, [], ◌∷◌, all, if◌then◌else◌, ltb,
  str_eq, str_mem, lookup,
}
use psychic_funicular.Base.Int.{pos}
use psychic_funicular.Time.{Duration, nanos}
use psychic_funicular.Model.{Event}
use psychic_funicular.Format.{label_ref}

pub record RuleMatch : Type 0 where
  pub types : List String
  pub labels : List (String × String)
  pub min_severity : String

pub record NotifyRule : Type 0 where
  pub name : String
  pub match : RuleMatch
  pub to : List String
  pub channels : List String
  pub cooldown : Duration

-- A key that the map lacks has rank 0.
unfoldable pub severity_rank : String → ℕ
severity_rank s =
    if str_eq s "info"
    then 0
    else if str_eq s "warning"
    then 1
    else if str_eq s "critical"
    then 2
    else 0

-- `ev.Labels[k]`, which is empty for a label that is not there.
unfoldable pub label_of : Event → String → String
unfolding lookup
label_of ev k = elim (lookup k ev.labels) [ some v ↦ v | none ↦ "" ]

abbrev pub is_nil : List String → Bool
is_nil [] = true
is_nil (s ∷ ss) = false

unfoldable pub matches : NotifyRule → Event → Bool
unfolding severity_rank label_of
matches r ev =
    if not (is_nil r.match.types) && not (str_mem ev.kind r.match.types)
    then false
    else if not (all (λ (l : String × String). str_eq (label_of ev l.0) l.1) r.match.labels)
    then false
    else if not (str_eq r.match.min_severity "")
    then not (ltb (severity_rank ev.severity) (severity_rank r.match.min_severity))
    else true

-- What one entry of `to` stands for.
unfoldable pub resolve : Event → String → String
unfolding label_ref label_of
resolve ev t = elim (label_ref t) [ some k ↦ label_of ev k | none ↦ t ]

-- The loop of `resolveRecipients`; the set `seen` holds what stands in `out`.
unfoldable pub resolve_loop : Event → List String → List String → List String
unfolding resolve
resolve_loop ev seen [] = []
resolve_loop ev seen (t ∷ ts) =
    let v = resolve ev t in
    let rest = resolve_loop ev seen ts in
    let rest' = resolve_loop ev (v ∷ seen) ts in
    if str_eq v "" then rest else if str_mem v seen then rest else v ∷ rest'

unfoldable pub resolve_recipients : List String → Event → List String
unfolding resolve_loop
resolve_recipients to ev = resolve_loop ev [] to

abbrev pub rule :
    String → List String → List (String × String) → List String → Duration → NotifyRule
rule name types labels to cooldown = record {
  name = name;
  match = record { types = types; labels = labels; min_severity = "" };
  to = to;
  channels = [];
  cooldown = cooldown;
}

abbrev pub minutes_of : ℕ → Duration
minutes_of n = pos (n * 60 * nanos)

unfoldable pub default_rules : List NotifyRule
default_rules =
    rule "disk-full" ("disk.full" ∷ []) [] ("admins" ∷ []) (minutes_of 60)
    ∷ rule "job-finished" ("job.completed" ∷ "job.failed" ∷ []) [] ("${owner}" ∷ []) (pos 0)
    ∷ rule "device-idle-allocated" ("device.idle" ∷ []) (("allocated", "true") ∷ [])
        ("${owner}" ∷ []) (minutes_of 120)
    ∷ rule "device-idle-free" ("device.idle" ∷ []) (("allocated", "false") ∷ []) ("admins" ∷ [])
        (minutes_of 120)
    ∷ rule "node-down" ("node.down" ∷ []) [] ("admins" ∷ []) (minutes_of 10)
    ∷ rule "node-diagnosed" ("node.diagnosed" ∷ []) [] ("admins" ∷ []) (minutes_of 10)
    ∷ []
