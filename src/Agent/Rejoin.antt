-- ===== src/Agent/Rejoin.antt =====
-- An agent that the server does not know is known after one round of its loop.
use mathlib.Core.Option.{some-injective}
use psychic_funicular.Base.{
  ◌≡◌, refl, ap, ◌∙◌, Bool, true, false, not, ◌||◌, String, Option, none, some, List, [], ◌∷◌, map,
  any, inl, inr, arith, str_eq, Bool-cases, if◌then◌else◌,
}
use psychic_funicular.Platform.{Platform}
use psychic_funicular.Time.{Time}
use psychic_funicular.Model.{Node}
use psychic_funicular.Store.Api.{Store, Result, ok, err}
use psychic_funicular.Store.Rows.{NodeRow}
use psychic_funicular.Store.Nodes.{has_node_id, beat_row, heartbeat}
use psychic_funicular.Store.Sqlite.{sqlite}
use psychic_funicular.Store.Answers.{registered_is_known}
use psychic_funicular.Notify.Engine.{Config}
use psychic_funicular.Notify.Watched.{Snapshot}
use psychic_funicular.Server.State.{Server, Reply, reply, invalid_argument, not_found, internal}
use psychic_funicular.Server.Convert.{node_from_snapshot}
use psychic_funicular.Server.Messages.{RegisterRequest, Beat, bare_node}
use psychic_funicular.Server.Agent.{register_handler, report_metrics, report_answer}
use psychic_funicular.Collector.Inventory.{answer_of}
use psychic_funicular.Agent.Loop.{report_round}

abbrev pub known : Beat
known = record { ok = true; should_reregister = false }

module _ (p : Platform) (s : Store) (cfg : Config) where
  -- A round of an agent against a server: a report, and a registration, of which the first try counts, if
  -- the answer asks for it.
  abbrev pub round_with :
      RegisterRequest
      → String
      → Time
      → String
      → Reply Beat × Server p s cfg
      → String × Server p s cfg
  round_with req addr now id (reply beat, w) =
      let (answer, w') = register_handler p s cfg req addr now w in
      if beat.should_reregister
      then (report_round (some beat) (answer_of answer) id, w')
      else (report_round (some beat) none id, w)
  round_with req addr now id (_, w) = (id, w)

  unfoldable pub agent_round :
      RegisterRequest
      → String
      → Time
      → Snapshot p
      → String × Server p s cfg
      → String × Server p s cfg
  unfolding report_metrics register_handler report_round
  agent_round req addr now snap (id, w) =
      round_with req addr now id (report_metrics p s cfg id (some snap) now w)

  known_report :
      (id : String) (snap : Snapshot p) (now : Time) (w : Server p s cfg)
      → str_eq id "" ≡ false
      → (s.heartbeat (node_from_snapshot p (bare_node id) (some snap)) now w.engine.store).0
        ≡ ok true
      → (report_metrics p s cfg id (some snap) now w).0 ≡ reply known
  unfolding report_metrics report_answer
  known_report id snap now w ne h = rw (ne, h) refl

-- A heartbeat keeps the nodes that are listed.
any-beat :
    (id : String) (n : Node) (t : Time) (rows : List NodeRow)
    → any (has_node_id id) (map (λ r. if has_node_id n.id r then beat_row n t r else r) rows)
      ≡ any (has_node_id id) rows
unfolding beat_row
any-beat id n t [] = refl
any-beat id n t (r ∷ rs) = elim (Bool-cases (has_node_id n.id r)) [
  | inl e ↦ rw e (ap (λ b. has_node_id id r || b) (any-beat id n t rs))
  | inr e ↦ rw e (ap (λ b. has_node_id id r || b) (any-beat id n t rs))
]

-- What a call answers, if it does not fail.
abbrev answer_or_blank : Reply String → String
answer_or_blank (reply id) = id
answer_or_blank _ = ""

answered_id :
    (res : Result String) (id : String)
    → Path
        (Reply String)
        (elim res [ ok new ↦ reply new | err e ↦ internal "register node failed" ])
        (reply id)
    → res ≡ ok id
answered_id (ok new) id h = ap ok (ap answer_or_blank h)
answered_id (err e) id h = absurd (ground (arith, h))

-- Whether an answer asks for a registration.
abbrev asks_anew : Reply Beat → Option Bool
asks_anew (reply beat) = some beat.should_reregister
asks_anew _ = none

module _ (p : Platform) (cfg : Config) where
  -- An id that the handler answers is one that the store knows.
  registered_beats :
      (req : RegisterRequest) (addr : String) (now : Time) (w : Server p sqlite cfg) (new : String)
      (beat : Node) (t : Time)
      → (register_handler p sqlite cfg req addr now w).0 ≡ reply new
      → beat.id ≡ new
      → (heartbeat beat t (register_handler p sqlite cfg req addr now w).1.engine.store).0 ≡ ok true
  unfolding register_handler
  registered_beats req addr now w new beat t h b = elim (Bool-cases (str_eq req.name "")) [
    | inl e ↦ absurd (ground (arith, rw e at h))
    | inr e ↦
        rw e (registered_is_known _ w.engine.store new beat t (answered_id _ new (rw e at h)) b)
  ]

  round_lost :
      (req : RegisterRequest) (addr : String) (now : Time) (id new : String)
      (r : Reply Beat × Server p sqlite cfg)
      → asks_anew r.0 ≡ some true
      → (register_handler p sqlite cfg req addr now r.1).0 ≡ reply new
      → round_with p sqlite cfg req addr now id r
        ≡ (new, (register_handler p sqlite cfg req addr now r.1).1)
  unfolding report_round
  round_lost req addr now id new (reply beat, w) a h = rw (some-injective _ _ a) (rw h refl)
  round_lost req addr now id new (invalid_argument e, w) a h = absurd (ground (arith, a))
  round_lost req addr now id new (not_found e, w) a h = absurd (ground (arith, a))
  round_lost req addr now id new (internal e, w) a h = absurd (ground (arith, a))

  round_known :
      (req : RegisterRequest) (addr : String) (now : Time) (id : String)
      (r : Reply Beat × Server p sqlite cfg)
      → asks_anew r.0 ≡ some false
      → round_with p sqlite cfg req addr now id r ≡ (id, r.1)
  unfolding report_round
  round_known req addr now id (reply beat, w) a = rw (some-injective _ _ a) refl
  round_known req addr now id (invalid_argument e, w) a = absurd (ground (arith, a))
  round_known req addr now id (not_found e, w) a = absurd (ground (arith, a))
  round_known req addr now id (internal e, w) a = absurd (ground (arith, a))

  -- What a report does to the tables, and what it asks for.
  report_lem :
      (id : String) (snap : Snapshot p) (now : Time) (w : Server p sqlite cfg)
      → str_eq id "" ≡ false
      → (asks_anew (report_metrics p sqlite cfg id (some snap) now w).0
          ≡ some (not (any (has_node_id id) w.engine.store.nodes)))
        × (any
              (has_node_id id)
              (report_metrics p sqlite cfg id (some snap) now w).1.engine.store.nodes
            ≡ any (has_node_id id) w.engine.store.nodes)
  unfolding report_metrics report_answer heartbeat node_from_snapshot
  report_lem id snap now w ne =
      let kept =
        any-beat id (node_from_snapshot p (bare_node id) (some snap)) now w.engine.store.nodes in
      elim (Bool-cases (any (has_node_id id) w.engine.store.nodes)) [
        | inl e ↦ (rw (ne, e) refl, rw (ne, e) (kept ∙ e))
        | inr e ↦ (rw (ne, e) refl, rw (ne, e) (kept ∙ e))
      ]

  -- If a registration after the report answers an id, and no id is empty, then after a round of its loop an
  -- agent has its old id if the store lists it, and the new one otherwise, and its next report, under that
  -- id, is answered as the report of a node that is known.
  pub agent_rejoins :
      (req : RegisterRequest) (addr : String) (now later : Time) (id new : String)
      (snap : Snapshot p) (w : Server p sqlite cfg)
      → str_eq id "" ≡ false
      → str_eq new "" ≡ false
      → (register_handler p sqlite cfg req addr now
          (report_metrics p sqlite cfg id (some snap) now w).1).0
        ≡ reply new
      → let (id', w') = agent_round p sqlite cfg req addr now snap (id, w) in
        (id' ≡ (if any (has_node_id id) w.engine.store.nodes then id else new))
        × ((report_metrics p sqlite cfg id' (some snap) later w').0 ≡ reply known)
  unfolding agent_round heartbeat node_from_snapshot
  agent_rejoins req addr now later id new snap w ne nn h =
      let r = report_metrics p sqlite cfg id (some snap) now w in
      let (asked, kept) = report_lem id snap now w ne in
      elim (Bool-cases (any (has_node_id id) w.engine.store.nodes)) [
        | inl e ↦
            rw (round_known req addr now id r (asked ∙ ap (λ b. some (not b)) e))
              (rw e refl, known_report p sqlite cfg id snap later r.1 ne (ap ok (kept ∙ e)))
        | inr e ↦
            let beat = node_from_snapshot p (bare_node new) (some snap) in
            rw (round_lost req addr now id new r (asked ∙ ap (λ b. some (not b)) e) h) (
              rw e refl,
              known_report p sqlite cfg new snap later _ nn
                  (registered_beats req addr now r.1 new beat later h refl),
            )
      ]
