-- ===== src/Collector/Inventory.antt =====
-- A heartbeat with the inventory of a snapshot does what a report of the snapshot does.
use mathlib.Core.Path.{subst}
use psychic_funicular.Base.{
  ℕ, ◌≡◌, refl, true, false, Bool, String, Option, none, some, inl, inr, str_eq, Bool-cases, not,
  if◌then◌else◌,
}
use psychic_funicular.Platform.{Platform}
use psychic_funicular.Time.{Time}
use psychic_funicular.Model.{Node}
use psychic_funicular.Store.Api.{Store, Result, ok, err}
use psychic_funicular.Notify.Engine.{Config}
use psychic_funicular.Notify.Watched.{Snapshot}
use psychic_funicular.Server.State.{Server, Reply, reply, invalid_argument, internal, set_store}
use psychic_funicular.Server.Convert.{resources_from_proto, node_from_snapshot, or_else}
use psychic_funicular.Server.Messages.{bare_node, Beat}
use psychic_funicular.Server.Agent.{heartbeat_handler, report_metrics, report_answer}
use psychic_funicular.Collector.{resources_from_snapshot, part_field}

-- The answer, if it is none of the errors.
abbrev pub answer_of {ℓ} : {A : Type ℓ} → Reply A → Option A
answer_of (reply a) = some a
answer_of _ = none

module _ (p : Platform) (s : Store) (cfg : Config) where
  part_lem {ℓ} :
      {A : Type ℓ} (field : A → ℕ) (o : Option A) → part_field p field o ≡ or_else 0 field o
  part_lem field none = refl
  part_lem field (some a) = refl

  same_node :
      (id : String) (snap : Snapshot p)
      → resources_from_proto (bare_node id) (some (resources_from_snapshot p snap))
        ≡ node_from_snapshot p (bare_node id) (some snap)
  unfolding resources_from_proto resources_from_snapshot node_from_snapshot
  same_node id snap =
      rw (part_lem (λ c. c.cores) snap.cpu, part_lem (λ m. m.total_bytes) snap.mem) refl

  -- What the two calls do with a result of the store.
  abbrev by_heartbeat :
      String → Result Bool × s.State → Server p s cfg → Reply Beat × Server p s cfg
  by_heartbeat node_id (res, st) w =
      if str_eq node_id "" then (invalid_argument "node_id is required", w) else (
        elim res [
          | ok found ↦ reply (record { ok = found; should_reregister = not found })
          | err e ↦ internal "heartbeat failed"
        ],
        set_store p s cfg st w,
      )

  abbrev by_report :
      String → Snapshot p → Result Bool × s.State → Server p s cfg → Reply Beat × Server p s cfg
  by_report node_id snap (res, st) w =
      if str_eq node_id ""
      then (invalid_argument "node_id is required", w)
      else report_answer p s cfg node_id (some snap) res (set_store p s cfg st w)

  abbrev Alike : Reply Beat × Server p s cfg → Reply Beat × Server p s cfg → Type 0
  Alike a b = (a.1.engine ≡ b.1.engine) × (answer_of a.0 ≡ answer_of b.0)

  by_report-Alike :
      (node_id : String) (snap : Snapshot p) (r : Result Bool × s.State) (w : Server p s cfg)
      → Alike (by_heartbeat node_id r w) (by_report node_id snap r w)
  unfolding report_answer
  by_report-Alike node_id snap (res, st) w = elim (Bool-cases (str_eq node_id "")) [
    | inl e ↦ rw e (refl, refl)
    | inr e ↦ rw e (answers res)
  ]
    where
      answers :
          (r : Result Bool)
          → Alike
              (
                elim r as (λ x. Reply Beat) [
                  | ok found ↦ reply (record { ok = found; should_reregister = not found })
                  | err e ↦ internal "heartbeat failed"
                ],
                set_store p s cfg st w,
              )
              (report_answer p s cfg node_id (some snap) r (set_store p s cfg st w))
      answers (ok true) = (refl, refl)
      answers (ok false) = (refl, refl)
      answers (err e) = (refl, refl)

  -- For every node id and every snapshot, a heartbeat with the inventory that the agent takes from the
  -- snapshot leaves the database and the events as a report of the snapshot does, and has the same answer,
  -- if it is not an error.
  pub heartbeat_as_report :
      (node_id : String) (snap : Snapshot p) (now : Time) (w : Server p s cfg)
      → ((heartbeat_handler p s cfg node_id (some (resources_from_snapshot p snap)) now w).1.engine
          ≡ (report_metrics p s cfg node_id (some snap) now w).1.engine)
        × (answer_of
              (heartbeat_handler p s cfg node_id (some (resources_from_snapshot p snap)) now w).0
            ≡ answer_of (report_metrics p s cfg node_id (some snap) now w).0)
  unfolding heartbeat_handler report_metrics
  heartbeat_as_report node_id snap now w =
      let hb = λ (n : Node). s.heartbeat n now w.engine.store in
      let sent = resources_from_proto (bare_node node_id) (some (resources_from_snapshot p snap)) in
      subst (λ n. Alike (by_heartbeat node_id (hb sent) w) (by_report node_id snap (hb n) w))
        (same_node node_id snap) (by_report-Alike node_id snap (hb sent) w)
