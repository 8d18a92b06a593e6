-- ===== src/Notify/Engine.antt =====
-- engine.go and notifier.go. The engine's calls are one at a time (its mutex), its clock is read once
-- per call, and the ids of `store.NewID` come from a stream; a channel is a function of the message
-- that succeeds or fails.
use psychic_funicular.Base.{
  ℕ, suc, Bool, true, false, not, String, Option, none, some, List, [], ◌∷◌, if◌then◌else◌, str_eq,
  lookup, insert,
}
use psychic_funicular.Base.Int.{pos, ltb_ℤ, leb_ℤ}
use psychic_funicular.Time.{Time, Duration, is_zero, sub}
use psychic_funicular.Model.{Event, Notification}
use psychic_funicular.Format.{concat, join}
use psychic_funicular.Store.Api.{Store, Result, ok, err}
use psychic_funicular.Notify.Rules.{NotifyRule, matches, resolve_recipients, default_rules}

pub record Message : Type 0 where
  pub event : Event
  pub recipients : List String
  pub title : String
  pub body : String

abbrev pub Notifier : Type 0
Notifier = Message → Result (Unit {0})

-- What `New` fixes: the rules (the default ones if none are configured), the default channels, the
-- registered notifiers by name, and the source of ids.
pub record Config : Type 0 where
  pub rules : List NotifyRule
  pub channels : List String
  pub notifiers : List (String × Notifier)
  pub ids : ℕ → String

abbrev pub log_notifier : Notifier
log_notifier m = ok tt

abbrev pub configured_rules : List NotifyRule → List NotifyRule
configured_rules [] = default_rules
configured_rules (r ∷ rs) = r ∷ rs

unfoldable pub register : String → Notifier → Config → Config
unfolding insert
register name n cfg = record cfg { notifiers = insert name n cfg.notifiers }

unfoldable pub new_engine : List NotifyRule → List String → (ℕ → String) → Config
unfolding register
new_engine rules channels ids =
    register "log" log_notifier
      (record { rules = configured_rules rules; channels = channels; notifiers = []; ids = ids })

abbrev pub Cooldowns : Type 0
Cooldowns = List (String × Time)

abbrev pub cooldown_key : NotifyRule → Event → String
cooldown_key r ev = concat (r.name ∷ "|" ∷ ev.dedup_key ∷ [])

abbrev pub is_cooling : Option Time → Time → Duration → Bool
is_cooling none now cd = false
is_cooling (some last) now cd = ltb_ℤ (sub now last) cd

unfoldable pub allow : NotifyRule → Event → Time → Cooldowns → Bool × Cooldowns
allow r ev now cool =
    let key = cooldown_key r ev in
    if leb_ℤ r.cooldown (pos 0)
    then (true, cool)
    else if is_cooling (lookup key cool) now r.cooldown
    then (false, cool)
    else (true, insert key now cool)

-- The note that `deliver` writes.
abbrev pub outcome : Option Notifier → Message → String × String
outcome none m = ("failed", "no such channel")
outcome (some n) m = elim (n m) [ ok _ ↦ ("sent", "") | err e ↦ ("failed", e) ]

abbrev pub message : Event → List String → Message
message ev recipients = record {
  event = ev;
  recipients = recipients;
  title = ev.kind;
  body = ev.summary;
}

unfoldable pub note :
    String → String → Event → String → List String → Option Notifier → Time → Notification
note id rule ev channel recipients n now = record {
  id = id;
  event_id = ev.id;
  event_type = ev.kind;
  rule = rule;
  channel = channel;
  recipients = join "," recipients;
  status = (outcome n (message ev recipients)).0;
  error = (outcome n (message ev recipients)).1;
  summary = ev.summary;
  time = now;
}

abbrev pub first_nonempty : List String → List String → List String
first_nonempty (c ∷ cs) defaults = c ∷ cs
first_nonempty [] (d ∷ ds) = d ∷ ds
first_nonempty [] [] = "log" ∷ []

module _ (s : Store) (cfg : Config) where
  open s use {State, create_event, create_notification}

  pub record Engine : Type 0 where
    pub store : State
    pub cooldown : Cooldowns
    pub issued : ℕ  -- how many ids have been taken

  unfoldable pub deliver : String → Event → String → List String → Time → Engine → Engine
  unfolding note
  deliver rule ev channel recipients now e =
      let n =
        note (cfg.ids e.issued) rule ev channel recipients (lookup channel cfg.notifiers) now in
      record e { store = (create_notification n e.store).1; issued = suc e.issued }

  unfoldable pub deliver_all : String → Event → List String → List String → Time → Engine → Engine
  unfolding deliver
  deliver_all rule ev [] recipients now e = e
  deliver_all rule ev (ch ∷ chs) recipients now e =
      deliver_all rule ev chs recipients now (deliver rule ev ch recipients now e)

  -- The body of the loop over the rules.
  unfoldable pub route : Event → Time → NotifyRule → Engine → Engine
  unfolding matches allow deliver_all resolve_recipients
  route ev now r e =
      let (allowed, cool) = allow r ev now e.cooldown in
      if not (matches r ev)
      then e
      else if not allowed
      then record e { cooldown = cool }
      else deliver_all r.name ev (first_nonempty r.channels cfg.channels)
          (resolve_recipients r.to ev) now (record e { cooldown = cool })

  unfoldable pub route_all : Event → Time → List NotifyRule → Engine → Engine
  unfolding route
  route_all ev now [] e = e
  route_all ev now (r ∷ rs) e = route_all ev now rs (route ev now r e)

  -- The event with the id and the time that `Emit` fills in, and the engine behind it.
  unfoldable pub stamp : Event → Time → Engine → Event × Engine
  stamp ev now e =
      let fresh = str_eq ev.id "" in
      (
        record ev {
          id = if fresh then cfg.ids e.issued else ev.id;
          time = if is_zero ev.time then now else ev.time;
        },
        record e { issued = if fresh then suc e.issued else e.issued },
      )

  -- An event that cannot be stored is routed all the same.
  unfoldable pub emit : Event → Time → Engine → Engine
  unfolding stamp route_all
  emit ev now e =
      let (ev', e') = stamp ev now e in
      route_all ev' now cfg.rules (record e' { store = (create_event ev' e'.store).1 })
