-- ===== src/Server/Reaper.antt =====
-- The loop of `reapLoop` in server.go: the nodes that have not been heard of for long are announced and
-- marked DOWN, and then checked by the diagnosis.
use psychic_funicular.Base.{
  Bool, not, ◌&&◌, String, Option, none, some, List, [], ◌∷◌, if◌then◌else◌,
}
use psychic_funicular.Base.Int.{◌-ℤ◌}
use psychic_funicular.Time.{Time, Duration, zero_time, is_zero, before}
use psychic_funicular.Model.{Node, is_up, Event}
use psychic_funicular.Format.{concat}
use psychic_funicular.Store.Api.{Store, ok, err}
use psychic_funicular.Notify.Engine.{Config, Engine, emit}
use psychic_funicular.Server.Diagnose.{DiagnosticsConfig, SshNode, LastRun, Trigger, check}

unfoldable pub down_event : Node → Event
down_event n = record {
  id = "";
  kind = "node.down";
  severity = "warning";
  source = n.name;
  summary = concat ("节点 " ∷ n.name ∷ " 心跳超时，判定失联" ∷ []);
  dedup_key = concat ("node-down|" ∷ n.name ∷ []);
  labels = ("node", n.name) ∷ [];
  time = zero_time;
}

-- The nodes that `emitNodeDownEvents` announces.
abbrev pub is_lost : Time → Node → Bool
is_lost cutoff n =
    is_up n.state && (not (is_zero n.last_heartbeat) && before n.last_heartbeat cutoff)

-- What `check` is given, if a diagnoser is configured.
pub record Diagnoser : Type 0 where
  pub cfg : DiagnosticsConfig
  pub nodes : List (String × SshNode)

module _ (s : Store) (cfg : Config) where
  open s use {State, list_nodes, mark_stale_down}

  unfoldable pub emit_node_down_events : Time → Time → List Node → Engine s cfg → Engine s cfg
  unfolding down_event
  emit_node_down_events cutoff now [] e = e
  emit_node_down_events cutoff now (n ∷ ns) e =
      emit_node_down_events cutoff now ns
        (if is_lost cutoff n then emit s cfg (down_event n) now e else e)

  abbrev pub diagnose_all : Option Diagnoser → List Node → Time → LastRun → List Trigger × LastRun
  unfolding check
  diagnose_all none nodes now last_run = ([], last_run)
  diagnose_all (some d) nodes now last_run = check d.cfg d.nodes nodes now last_run

  -- One tick; the diagnosis is given the nodes as they were listed.
  unfoldable pub reap :
      Duration
      → Option Diagnoser
      → Time
      → Engine s cfg × LastRun
      → List Trigger × Engine s cfg × LastRun
  unfolding emit_node_down_events
  reap timeout diag now (e, last_run) =
      let cutoff = now -ℤ timeout in
      elim (list_nodes e.store) [
        | err _ ↦ ([], e, last_run)
        | ok nodes ↦
            let e' = emit_node_down_events cutoff now nodes e in
            let (res, st) = mark_stale_down cutoff e'.store in
            let e'' = record e' { store = st } in
            elim res [
              | err _ ↦ ([], e'', last_run)
              | ok _ ↦
                  let (started, last_run') = diagnose_all diag nodes now last_run in
                  (started, e'', last_run')
            ]
      ]
