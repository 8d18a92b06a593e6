-- ===== src/Server/Untouched.antt =====
-- Events, notifications and registrations leave the table of jobs alone.
use psychic_funicular.Base.{
  ◌∙◌, ◌≤◌, ◌≡◌, refl, not, String, List, [], ◌∷◌, inl, inr, arith, Bool-cases, Option-cases, find,
  any,
}
use psychic_funicular.Time.{Time}
use psychic_funicular.Model.{Node, Event}
use psychic_funicular.Store.Rows.{Db}
use psychic_funicular.Store.Events.{create_event, create_notification}
use psychic_funicular.Store.Nodes.{named, has_node_id, register_node}
use psychic_funicular.Store.Sqlite.{sqlite}
use psychic_funicular.Notify.Rules.{NotifyRule, matches, resolve_recipients}
use psychic_funicular.Notify.Engine.{
  Config, Cooldowns, Engine, deliver, deliver_all, route, route_all, stamp, emit, allow,
  first_nonempty,
}

-- Events touch the tables of events and of notifications only.
create_event-jobs : (ev : Event) (db : Db) → (create_event ev db).1.jobs ≡ db.jobs
unfolding create_event
create_event-jobs ev db = ground arith

-- What the notifications of an event leave alone: all tables but their own; and ids are only taken.
pub record Kept {cfg : Config} (e e' : Engine sqlite cfg) : Type 0 where
  pub jobs : e'.store.jobs ≡ e.store.jobs
  pub nodes : e'.store.nodes ≡ e.store.nodes
  pub events : e'.store.events ≡ e.store.events
  pub issued : e.issued ≤ e'.issued

module _ (cfg : Config) where
  Kept-refl : (e : Engine sqlite cfg) → Kept e e
  Kept-refl e = record { jobs = refl; nodes = refl; events = refl; issued = omega arith }

  same_store-Kept : (e : Engine sqlite cfg) (c : Cooldowns) → Kept e (record e { cooldown = c })
  same_store-Kept e c = record { jobs = refl; nodes = refl; events = refl; issued = omega arith }

  Kept-trans : {a b c : Engine sqlite cfg} → Kept a b → Kept b c → Kept a c
  Kept-trans h k = record {
    jobs = k.jobs ∙ h.jobs;
    nodes = k.nodes ∙ h.nodes;
    events = k.events ∙ h.events;
    issued = omega (arith, h.issued, k.issued);
  }

  deliver-Kept :
      (rule : String) (ev : Event) (ch : String) (to : List String) (now : Time)
      (e : Engine sqlite cfg)
      → Kept e (deliver sqlite cfg rule ev ch to now e)
  unfolding deliver create_notification
  deliver-Kept rule ev ch to now e = record {
    jobs = ground arith;
    nodes = ground arith;
    events = ground arith;
    issued = omega arith;
  }

  deliver_all-Kept :
      (rule : String) (ev : Event) (chs to : List String) (now : Time) (e : Engine sqlite cfg)
      → Kept e (deliver_all sqlite cfg rule ev chs to now e)
  unfolding deliver_all
  deliver_all-Kept rule ev [] to now e = Kept-refl e
  deliver_all-Kept rule ev (ch ∷ chs) to now e =
      Kept-trans (deliver-Kept rule ev ch to now e)
        (deliver_all-Kept rule ev chs to now (deliver sqlite cfg rule ev ch to now e))

  route-Kept :
      (ev : Event) (now : Time) (r : NotifyRule) (e : Engine sqlite cfg)
      → Kept e (route sqlite cfg ev now r e)
  unfolding route
  route-Kept ev now r e = elim (Bool-cases (not (matches r ev))) [
    | inl m ↦ rw m (Kept-refl e)
    | inr m ↦
        let cooled = record e { cooldown = (allow r ev now e.cooldown).1 } in
        elim (Bool-cases (not (allow r ev now e.cooldown).0)) [
          | inl a ↦ rw (m, a) (same_store-Kept e (allow r ev now e.cooldown).1)
          | inr a ↦
              rw (m, a)
                (Kept-trans (same_store-Kept e (allow r ev now e.cooldown).1) (
                  deliver_all-Kept r.name ev (first_nonempty r.channels cfg.channels)
                    (resolve_recipients r.to ev) now cooled))
        ]
  ]

  pub route_all-Kept :
      (ev : Event) (now : Time) (rs : List NotifyRule) (e : Engine sqlite cfg)
      → Kept e (route_all sqlite cfg ev now rs e)
  unfolding route_all
  route_all-Kept ev now [] e = Kept-refl e
  route_all-Kept ev now (r ∷ rs) e =
      Kept-trans (route-Kept ev now r e) (route_all-Kept ev now rs (route sqlite cfg ev now r e))

  pub emit-jobs :
      (ev : Event) (now : Time) (e : Engine sqlite cfg)
      → (emit sqlite cfg ev now e).store.jobs ≡ e.store.jobs
  unfolding emit stamp
  emit-jobs ev now e =
      let (ev', e') = stamp sqlite cfg ev now e in
      (route_all-Kept ev' now cfg.rules (record e' { store = (create_event ev' e.store).1 })).jobs
      ∙ create_event-jobs ev' e.store

pub register_node-jobs : (n : Node) (db : Db) → (register_node n db).1.jobs ≡ db.jobs
unfolding register_node
register_node-jobs n db = elim (Option-cases (find (named n.name) db.nodes)) [
  | inl e ↦ elim (Bool-cases (any (has_node_id n.id) db.nodes)) [
    | inl f ↦ rw (e, register_node) (rw f refl)
    | inr f ↦ rw (e, register_node) (rw f refl)
  ]
  | inr (r, e) ↦ rw (e, register_node) refl
]
