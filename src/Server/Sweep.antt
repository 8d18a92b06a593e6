-- ===== src/Server/Sweep.antt =====
-- The nodes that a sweep announces as lost, and the nodes that it marks DOWN.
use mathlib.Core.Path.{subst⁻¹}
use psychic_funicular.Base.{
  ℕ, suc, ◌+◌, ◌*◌, ◌≡◌, refl, true, false, Option, List, [], ◌∷◌, ◌++◌, map, keep, sort, str_lt,
  ◌↔◌, if◌then◌else◌, inl, inr, ◌⊎◌, arith, Bool-cases,
}
use psychic_funicular.Base.Int.{pos, negsuc, ◌-ℤ◌, ltb_ℤ, eq_of_parts}
use psychic_funicular.Time.{Time, Duration, nanos, epoch, unix, of_unix, before}
use psychic_funicular.Model.{NodeState, is_down, up, down, drain}
use psychic_funicular.Store.Rows.{NodeRow}
use psychic_funicular.Store.Nodes.{is_stale, list_nodes, mark_stale_down}
use psychic_funicular.Store.Sqlite.{sqlite}
use psychic_funicular.Notify.Engine.{Config, Engine}
use psychic_funicular.Server.Diagnose.{LastRun}
use psychic_funicular.Server.Reaper.{Diagnoser, reap}
use psychic_funicular.Server.Announced.{
  event_line, DistinctIds, UnusedIds, overdue, announcement, announced_lem,
}

earlier_second :
    (s : ℕ) (cutoff : Time)
    → ltb_ℤ (pos (suc s)) (unix cutoff) ≡ true
    → before (pos ((suc s + epoch) * nanos)) cutoff ≡ true
unfolding unix ◌-ℤ◌
earlier_second s (pos c) h = ground (arith, h)
earlier_second s (negsuc c) h = ground (arith, h)

same_second :
    (s : ℕ) (cutoff : Time)
    → before (pos ((suc s + epoch) * nanos)) cutoff ≡ true
    → (ltb_ℤ (pos (suc s)) (unix cutoff) ≡ true) ⊎ (pos (suc s) ≡ unix cutoff)
unfolding unix ◌-ℤ◌
same_second s (pos c) h = elim (Bool-cases (ltb_ℤ (pos (suc s)) (unix (pos c)))) [
  | inl e ↦ inl e
  | inr e ↦ inr (eq_of_parts (pos (suc s)) (unix (pos c)) (ground (arith, h, e)))
]
same_second s (negsuc c) h = absurd (ground (arith, h))

-- What the sweep makes of a row: it is DOWN if it was not and has not been heard of since the second of the
-- cutoff, and as before otherwise.
pub data Swept (cutoff : Time) (r : NodeRow) : NodeRow → Type 0 where
  marked :
      ¬ (r.state ≡ down)
      → ltb_ℤ r.last_heartbeat (unix cutoff) ≡ true
      → Swept cutoff r (record r { state = down })
  left : (r.state ≡ down) ⊎ (ltb_ℤ r.last_heartbeat (unix cutoff) ≡ false) → Swept cutoff r r

pub data SweptRows (cutoff : Time) : List NodeRow → List NodeRow → Type 0 where
  no_row : SweptRows cutoff [] []
  and_row :
      {r r' : NodeRow} {rs rs' : List NodeRow}
      → Swept cutoff r r'
      → SweptRows cutoff rs rs'
      → SweptRows cutoff (r ∷ rs) (r' ∷ rs')

down_iff : (st : NodeState) → (is_down st ≡ true) ↔ (st ≡ down)
down_iff up = (λ h. absurd (ground (arith, h)), λ h. absurd (ground (arith, h)))
down_iff down = (λ h. refl, λ h. refl)
down_iff drain = (λ h. absurd (ground (arith, h)), λ h. absurd (ground (arith, h)))

mark : Time → NodeRow → NodeRow
mark cutoff r = if is_stale cutoff r then record r { state = down } else r

mark-Swept : (cutoff : Time) (r : NodeRow) → Swept cutoff r (mark cutoff r)
unfolding mark
mark-Swept cutoff r = elim (Bool-cases (ltb_ℤ r.last_heartbeat (unix cutoff))) [
  | inr l ↦ rw l (left (inr l))
  | inl l ↦ elim (Bool-cases (is_down r.state)) [
    | inl d ↦ rw (l, d) (left (inl ((down_iff r.state).0 d)))
    | inr d ↦ rw (l, d) (marked (λ e. absurd (ground (arith, (down_iff r.state).1 e, d))) l)
  ]
]

mark_all-SweptRows :
    (cutoff : Time) (rows : List NodeRow) → SweptRows cutoff rows (map (mark cutoff) rows)
mark_all-SweptRows cutoff [] = no_row
mark_all-SweptRows cutoff (r ∷ rs) = and_row (mark-Swept cutoff r) (mark_all-SweptRows cutoff rs)

positive : (s : ℕ) → ltb_ℤ (pos 0) (pos (suc s)) ≡ true
positive s = ground arith

overdue_iff :
    (cutoff : Time) (r : NodeRow) (s : ℕ)
    → r.state ≡ up
    → r.last_heartbeat ≡ pos (suc s)
    → (ltb_ℤ r.last_heartbeat (unix cutoff) ≡ true → overdue cutoff r ≡ true)
      × (overdue cutoff r ≡ true
          → (ltb_ℤ r.last_heartbeat (unix cutoff) ≡ true) ⊎ (r.last_heartbeat ≡ unix cutoff))
unfolding of_unix
overdue_iff cutoff r s u h =
    rw (u, h)
      (
        λ l. rw (positive s) (earlier_second s cutoff l),
        λ o. same_second s cutoff (rw (positive s) at o),
      )

abbrev pub by_name : List NodeRow → List NodeRow
by_name rows = sort (λ a b. str_lt a.name b.name) rows

-- If the ids of events differ and none to come stands in the table of events, then a tick of the sweep, whose
-- cutoff is the time less the timeout, adds to that table one row of the type `node.down` for each node that
-- is UP, has been heard of, and not since the cutoff, with the name of the node as its source, in the order
-- of the names, and no other row. Of the nodes it marks DOWN those that are not and whose last heartbeat
-- stands in a second before the cutoff's, and leaves everything else of them as it was. So an UP node that
-- has been heard of (after 1970) and is marked DOWN is announced, and one that is announced is marked DOWN,
-- or its last heartbeat stands in the very second of the cutoff.
pub sweep_announces :
    (cfg : Config) (timeout : Duration) (diag : Option Diagnoser) (now : Time)
    (e : Engine sqlite cfg) (last_run : LastRun)
    → DistinctIds cfg
    → UnusedIds cfg e
    → let cutoff = now -ℤ timeout in
      let e' = (reap sqlite cfg timeout diag now (e, last_run)).1 in
      (map event_line e'.store.events
        ≡ map event_line e.store.events
          ++ map announcement (keep (overdue cutoff) (by_name e.store.nodes)))
      × SweptRows cutoff e.store.nodes e'.store.nodes
      × ((r : NodeRow) (s : ℕ)
          → r.state ≡ up
          → r.last_heartbeat ≡ pos (suc s)
          → (ltb_ℤ r.last_heartbeat (unix cutoff) ≡ true → overdue cutoff r ≡ true)
            × (overdue cutoff r ≡ true
                → (ltb_ℤ r.last_heartbeat (unix cutoff) ≡ true) ⊎ (r.last_heartbeat ≡ unix cutoff)))
unfolding reap list_nodes mark_stale_down mark
sweep_announces cfg timeout diag now e last_run distinct unused =
    let cutoff = now -ℤ timeout in
    let written = announced_lem cfg distinct cutoff now (by_name e.store.nodes) e unused in
    (
      written.0,
      subst⁻¹ (λ rows. SweptRows cutoff e.store.nodes (map (mark cutoff) rows)) written.1
          (mark_all-SweptRows cutoff e.store.nodes),
      overdue_iff cutoff,
    )
