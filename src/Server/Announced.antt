-- ===== src/Server/Announced.antt =====
-- What `emitNodeDownEvents` writes into the table of events.
use mathlib.Core.Path.{subst, subst⁻¹}
use psychic_funicular.Base.{
  ℕ, zero, suc, not, ◌&&◌, ◌≤◌, ◌≡◌, refl, ap, ◌∙◌, sym, Bool, true, false, ◌||◌, String, List, [],
  ◌∷◌, ◌++◌, map, any, keep, inl, inr, arith, Bool-cases, str_eq, str_eq_iff, if◌then◌else◌,
}
use mathlib.Core.List.{append_assoc, append-nil}
use psychic_funicular.Base.Int.{ℤ, pos, negsuc, ltb_ℤ}
use psychic_funicular.Time.{Time, is_zero, before, of_unix}
use psychic_funicular.Model.{Event, is_up}
use psychic_funicular.Store.Rows.{Db, NodeRow, event_row, scan_node, unix_to_time}
use psychic_funicular.Store.Events.{create_event}
use psychic_funicular.Store.Sqlite.{sqlite}
use psychic_funicular.Notify.Engine.{Config, Engine, stamp, emit}
use psychic_funicular.Server.Untouched.{route_all-Kept}
use psychic_funicular.Server.Reaper.{is_lost, down_event, emit_node_down_events}

-- What a row of the table of events tells: the type and the source.
abbrev pub event_line : Event × ℤ → String × String
event_line r = (r.0.kind, r.0.source)

-- The ids of `store.NewID` differ, and none that is still to come stands in the table of events.
abbrev pub DistinctIds : Config → Type 0
DistinctIds cfg = (a b : ℕ) → cfg.ids a ≡ cfg.ids b → a ≡ b

abbrev pub UnusedIds : (cfg : Config) → Engine sqlite cfg → Type 0
UnusedIds cfg e =
    (k : ℕ)
    → e.issued ≤ k
    → any (λ (r : Event × ℤ). str_eq r.0.id (cfg.ids k)) e.store.events ≡ false

create_event-nodes : (ev : Event) (db : Db) → (create_event ev db).1.nodes ≡ db.nodes
unfolding create_event
create_event-nodes ev db = ground arith

any-append_one {ℓ} :
    {A : Type ℓ} (p : A → Bool) (xs : List A) (x : A) → any p (xs ++ x ∷ []) ≡ (any p xs || p x)
any-append_one p [] x = ground arith
any-append_one p (y ∷ ys) x = ground (arith, any-append_one p ys x)

map-append_one {ℓ κ} :
    {A : Type ℓ} {B : Type κ} (f : A → B) (xs : List A) (x : A)
    → map f (xs ++ x ∷ []) ≡ map f xs ++ f x ∷ []
map-append_one f [] x = refl
map-append_one f (y ∷ ys) x = ap (λ zs. f y ∷ zs) (map-append_one f ys x)

module _ (cfg : Config) (distinct : DistinctIds cfg) where
  -- A row is added for the event, and nothing else is done to the nodes and the events.
  record Told (ev : Event) (e e' : Engine sqlite cfg) : Type 0 where
    events :
        map event_line e'.store.events ≡ map event_line e.store.events ++ (ev.kind, ev.source) ∷ []
    nodes : e'.store.nodes ≡ e.store.nodes
    unused : UnusedIds cfg e'

  not_again : (a k : ℕ) → suc a ≤ k → str_eq (cfg.ids a) (cfg.ids k) ≡ false
  not_again a k l = elim (Bool-cases (str_eq (cfg.ids a) (cfg.ids k))) [
    | inl e ↦ absurd (omega (arith, l, distinct a k ((str_eq_iff (cfg.ids a) (cfg.ids k)).0 e)))
    | inr e ↦ e
  ]

  -- The event with its id and time, and the engine in which it stands in the table.
  module _ (ev : Event) (now : Time) (e : Engine sqlite cfg) (blank : str_eq ev.id "" ≡ true) where
    abbrev stamped : Event
    unfolding stamp
    stamped = (stamp sqlite cfg ev now e).0

    abbrev created : Engine sqlite cfg
    unfolding stamp create_event
    created = record (stamp sqlite cfg ev now e).1 { store = (create_event stamped e.store).1 }

    stamped-id : stamped.id ≡ cfg.ids e.issued
    unfolding stamped
    stamped-id = rw blank refl

    created-issued : created.issued ≡ suc e.issued
    unfolding created
    created-issued = rw blank refl

    created-nodes : created.store.nodes ≡ e.store.nodes
    unfolding created
    created-nodes = create_event-nodes stamped e.store

    created-events :
        UnusedIds cfg e → created.store.events ≡ e.store.events ++ event_row stamped ∷ []
    unfolding created event_row
    created-events unused = rw (stamped-id, unused e.issued (omega arith)) refl

  emit-Told :
      (ev : Event) (now : Time) (e : Engine sqlite cfg)
      → str_eq ev.id "" ≡ true
      → UnusedIds cfg e
      → Told ev e (emit sqlite cfg ev now e)
  unfolding emit event_row created
  emit-Told ev now e blank unused =
      let kept =
        route_all-Kept cfg (stamped ev now e blank) now cfg.rules (created ev now e blank) in
      let grown = kept.events ∙ created-events ev now e blank unused in
      let upto =
        subst (λ n. n ≤ (emit sqlite cfg ev now e).issued) (created-issued ev now e blank)
          kept.issued in
      record {
        events = ap (map event_line) grown ∙ map-append_one event_line e.store.events _;
        nodes = kept.nodes ∙ created-nodes ev now e blank;
        unused = λ k l.
            subst⁻¹ (λ rows. any (λ (r : Event × ℤ). str_eq r.0.id (cfg.ids k)) rows ≡ false) grown
              (any-append_one (λ (r : Event × ℤ). str_eq r.0.id (cfg.ids k)) e.store.events _
                ∙ rw
                    (
                      unused k (omega (arith, l, upto)),
                      stamped-id ev now e blank,
                      not_again e.issued k (omega (arith, l, upto)),
                    )
                    refl);
      }

-- A row that the sweep announces: the node is UP, has been heard of, and not since the cutoff.
abbrev pub overdue : Time → NodeRow → Bool
overdue cutoff r =
    is_up r.state && (ltb_ℤ (pos 0) r.last_heartbeat && before (of_unix r.last_heartbeat) cutoff)

silent_lem :
    (u : ℤ) (cutoff : Time)
    → (not (is_zero (unix_to_time u)) && before (unix_to_time u) cutoff)
      ≡ (ltb_ℤ (pos 0) u && before (of_unix u) cutoff)
unfolding unix_to_time of_unix
silent_lem (pos zero) cutoff = refl
silent_lem (pos (suc s)) cutoff = ground arith
silent_lem (negsuc n) cutoff = ground arith

is_lost_lem : (cutoff : Time) (r : NodeRow) → is_lost cutoff (scan_node r) ≡ overdue cutoff r
unfolding scan_node
is_lost_lem cutoff r = ap (λ b. is_up r.state && b) (silent_lem r.last_heartbeat cutoff)

-- What the table of events tells of an announced row.
abbrev pub announcement : NodeRow → String × String
announcement r = ("node.down", r.name)

module _ (cfg : Config) (distinct : DistinctIds cfg) (cutoff now : Time) where
  written_for :
      (r : NodeRow) (e : Engine sqlite cfg)
      → UnusedIds cfg e
      → Told cfg distinct
          (down_event (scan_node r))
          e
          (emit sqlite cfg (down_event (scan_node r)) now e)
  unfolding down_event scan_node
  written_for r e unused = emit-Told cfg distinct (down_event (scan_node r)) now e refl unused

  pub announced_lem :
      (rows : List NodeRow) (e : Engine sqlite cfg)
      → UnusedIds cfg e
      → let e' = emit_node_down_events sqlite cfg cutoff now (map scan_node rows) e in
        (map event_line e'.store.events
          ≡ map event_line e.store.events ++ map announcement (keep (overdue cutoff) rows))
        × (e'.store.nodes ≡ e.store.nodes)
  unfolding emit_node_down_events scan_node
  announced_lem [] e unused = (sym (append-nil (map event_line e.store.events)), refl)
  announced_lem (r ∷ rs) e unused = elim (Bool-cases (overdue cutoff r)) [
    | inr o ↦ subst⁻¹ Done (is_lost_lem cutoff r ∙ o) (rw o (announced_lem rs e unused))
    | inl o ↦
        let first = written_for r e unused in
        let later =
          announced_lem rs (emit sqlite cfg (down_event (scan_node r)) now e) first.unused in
        subst⁻¹ Done (is_lost_lem cutoff r ∙ o) (
          rw o (
            later.0
                ∙ ap (λ xs. xs ++ map announcement (keep (overdue cutoff) rs)) first.events
                ∙ append_assoc (map event_line e.store.events) (announcement r ∷ []) _,
            later.1 ∙ first.nodes,
          ))
  ]
    where
      -- The rest of the loop, for either outcome of the test of the first node.
      after : Bool → Engine sqlite cfg
      after lost =
          emit_node_down_events sqlite cfg cutoff now (map scan_node rs)
            (if lost then emit sqlite cfg (down_event (scan_node r)) now e else e)

      Done : Bool → Type 0
      Done lost =
          (map event_line (after lost).store.events
            ≡ map event_line e.store.events ++ map announcement (keep (overdue cutoff) (r ∷ rs)))
          × ((after lost).store.nodes ≡ e.store.nodes)
