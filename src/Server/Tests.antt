-- ===== src/Server/Tests.antt =====
-- The theorems on the server at concrete requests.
use text.Mathlib.TextLemmas.{nil≢cons, cons≢nil, tail-eq_of_cons-eq}
use psychic_funicular.Base.{
  ℕ, zero, suc, ◌<◌, some, length, get_elem?, ◌+◌, ◌*◌, ◌≡◌, refl, ap, keep, sort, insert, ◌++◌,
  ◌↔◌, map, true, false, String, Option, none, List, [], ◌∷◌, ◌⊎◌, arith, All,
}
use psychic_funicular.Base.Int.{ℤ, pos, ltb_ℤ, ◌-ℤ◌}
use psychic_funicular.Time.{Time, nanos, epoch, unix, of_unix}
use psychic_funicular.Model.{Event, failed, up, down}
use psychic_funicular.Store.Rows.{
  NodeRow, job_row, event_row, notification_row, node_row, scan_node,
}
use psychic_funicular.Store.Nodes.{list_nodes, mark_stale_down}
use psychic_funicular.Store.Lifecycle.{Evolves}
use psychic_funicular.Store.Keys.{UniqueJobs, UniqueJobs-append}
use psychic_funicular.Notify.Rules.{default_rules, minutes_of}
use psychic_funicular.Server.Messages.{job_event}
use psychic_funicular.Server.Requests.{
  Request, registers, updates, submits, cancels, serve_all, TracedRequests,
  requests_follow_lifecycle,
}
use psychic_funicular.Server.Reaper.{reap}
use psychic_funicular.Server.Announced.{event_line, DistinctIds, overdue, announcement}
use psychic_funicular.Server.Sweep.{SweptRows, by_name, sweep_announces}
use psychic_funicular.Server.Finish.{told, owner_is_told}
use psychic_funicular.Server.Diagnose.{SshNode, DiagnosticsConfig, check}
use psychic_funicular.Server.Probe.{Lost, check-Lost}
use psychic_funicular.Transport.Provision.{Attempt, ProvisionError, provision}
use psychic_funicular.Transport.Waits.{wait_after}
use psychic_funicular.Server.Tunnels.{SshNodeConfig, provision_spec, provision_when_ready, tried}
use psychic_funicular.Server.Delivery.{delivery_succeeds}
use psychic_funicular.Server.Diagnose.{classify, diagnosed_event}
use psychic_funicular.Server.Recovery.{run_diagnosis}
use psychic_funicular.Server.Recovered.{recovers_iff}
use psychic_funicular.Transport.Alive.{Probed, agent_alive, diagnose}
use psychic_funicular.Transport.Gone.{Gone}
use psychic_funicular.Store.Api.{ok}
use psychic_funicular.Store.Events.{create_event, create_notification}
use psychic_funicular.Store.Sqlite.{sqlite}
use psychic_funicular.Notify.Engine.{Config, Engine, emit}
use psychic_funicular.Server.Samples.{config, one, server}
use psychic_funicular.Samples.{exact, node, job, clock, cluster}

one_row : UniqueJobs server.engine.store.jobs
unfolding job_row
one_row = UniqueJobs-append [] one refl (λ id. omega arith)

abbrev status : String → Request exact
status state = updates (record { job_id = "one"; state = state; exit_code = pos 0; reason = "" })

abbrev traffic : List (Request exact × Time)
traffic =
    (
      registers
          (record {
            name = "n3";
            partition = "gpu";
            resources = none;
            labels = [];
            agent_version = "";
          })
          "",
      clock,
    )
    ∷ (status "RUNNING", clock)
    ∷ (
      submits (record {
        name = "";
        owner = "";
        partition = "";
        priority = pos 0;
        command = "ls";
        env = [];
        workdir = "";
        request = none;
      }),
      clock,
    )
    ∷ (status "COMPLETED", clock)
    ∷ (cancels "one", clock)
    ∷ []

requests_follow_lifecycle_example :
    UniqueJobs (serve_all exact config traffic server).engine.store.jobs
    × TracedRequests exact config traffic server
    × Evolves server.engine.store.jobs (serve_all exact config traffic server).engine.store.jobs
requests_follow_lifecycle_example = requests_follow_lifecycle exact config traffic server one_row

owner_is_told_example :
    told default_rules (job_event (job "one" 2 1 100) "one" failed (pos 1)) ≡ ("li" ∷ []) ∷ []
owner_is_told_example = owner_is_told (job "one" 2 1 100) "one" failed (pos 1) refl refl refl

abbrev cutoff : Time
cutoff = pos ((10 + epoch) * nanos + 1)

abbrev tally : ℕ → String
tally zero = ""
tally (suc n) = String.◌∷◌ "i" (tally n)

abbrev numbered : Config
numbered = record config { ids = tally }

tally-distinct : DistinctIds numbered
tally-distinct zero zero e = refl
tally-distinct zero (suc b) e = absurd (nil≢cons e)
tally-distinct (suc a) zero e = absurd (cons≢nil e)
tally-distinct (suc a) (suc b) e = ap suc (tally-distinct a b (tail-eq_of_cons-eq e))

abbrev heard : String → ℕ → NodeRow
heard name s = record (node_row (node name 4 [])) { last_heartbeat = pos s }

-- A node last heard of before the second of the cutoff, one in it, and one never.
abbrev silent : Engine sqlite numbered
silent = record {
  store = record {
    nodes = heard "n2" 5 ∷ heard "n1" 10 ∷ heard "n3" 0 ∷ [];
    jobs = [];
    events = [];
    notifications = [];
  };
  cooldown = [];
  issued = 0;
}

sweep_announces_example :
    let e' = (reap sqlite numbered (pos 0) none cutoff (silent, [])).1 in
    (map event_line e'.store.events
      ≡ [] ++ map announcement (keep (overdue cutoff) (by_name silent.store.nodes)))
    × SweptRows cutoff silent.store.nodes e'.store.nodes
    × ((r : NodeRow) (s : ℕ)
        → r.state ≡ up
        → r.last_heartbeat ≡ pos (suc s)
        → (ltb_ℤ r.last_heartbeat (unix cutoff) ≡ true → overdue cutoff r ≡ true)
          × (overdue cutoff r ≡ true
              → (ltb_ℤ r.last_heartbeat (unix cutoff) ≡ true) ⊎ (r.last_heartbeat ≡ unix cutoff)))
unfolding ◌-ℤ◌
sweep_announces_example =
    sweep_announces numbered (pos 0) none cutoff silent [] tally-distinct (λ k l. refl)

-- The second one is announced, and not marked; the third is marked, and not announced.
announced_early :
    let e' = (reap sqlite numbered (pos 0) none cutoff (silent, [])).1 in
    (map event_line e'.store.events ≡ ("node.down", "n1") ∷ ("node.down", "n2") ∷ [])
    × (map (λ (r : NodeRow). r.state) e'.store.nodes ≡ down ∷ up ∷ down ∷ [])
unfolding reap list_nodes mark_stale_down sort node_row scan_node of_unix ◌-ℤ◌ emit default_rules
    insert create_notification create_event event_row notification_row unix
announced_early = (refl, refl)

abbrev managed_nodes : List (String × SshNode)
managed_nodes = ("n1", record { name = "n1"; provision = true; auto_restart = true }) ∷ []

abbrev limits : DiagnosticsConfig
limits = record { after_down = minutes_of 1; cooldown = minutes_of 2 }

check-Lost_example :
    All
      (Lost limits managed_nodes (minutes_of 10) cluster)
      (check limits managed_nodes cluster (minutes_of 10) []).0
check-Lost_example = check-Lost limits managed_nodes (minutes_of 10) cluster []

abbrev managed_node : SshNodeConfig
managed_node = record {
  name = "n1";
  addr = "10.0.0.1:2222";
  user = "root";
  key = "key";
  known_host = "";
  remote_listen = "";
  provision = true;
  agent_bin = "agent";
  remote_path = "";
  partition = "gpu";
  agent_args = "";
  auto_restart = true;
}

abbrev reachable : Attempt
reachable = record {
  context_fault = none;
  dial_fault = none;
  remote = record {
    open_fault = none;
    stat_fault = none;
    session_fault = none;
    stdin_fault = none;
    stdout_fault = none;
    start_fault = none;
    content = 1 ∷ [];
    size = 1;
    pipe = record { control_fault = none; data_fault = none; end_fault = none };
    answers = 0 ∷ 0 ∷ 0 ∷ [];
    late = false;
  };
  run_fault = λ c. none;
}

-- The first attempt does not reach the node.
abbrev second_reaches : ℕ → Attempt
second_reaches zero = record reachable { dial_fault = some "refused" }
second_reaches (suc i) = reachable

first_fails :
    (i : ℕ)
    → i < 1
    → (e : ProvisionError) × (provision (λ s. s) (provision_spec managed_node) (second_reaches i)
        ≡ some e)
unfolding provision provision_spec
first_fails zero h = (_, refl)
first_fails (suc i) h = absurd (omega (arith, h))

second_works : provision (λ s. s) (provision_spec managed_node) (second_reaches 1) ≡ none
unfolding provision provision_spec
second_works = refl

delivery_succeeds_example :
    (waits : List ℕ) × (provision_when_ready (λ s. s) true managed_node 3 second_reaches
      ≡ tried (waits, some tt))
    × (length waits ≡ 1)
    × ((i w : ℕ) → get_elem? waits i ≡ some w → w ≡ wait_after (i + 1))
delivery_succeeds_example =
    delivery_succeeds (λ s. s) managed_node 3 1 second_reaches refl (omega arith) first_fails
      second_works

-- The probe of a node whose agent is gone.
abbrev without_agent : Probed
without_agent = record { session_fault = none; output = λ command. ok "DEAD\n" }

recovers_iff_example :
    let delivered =
      (run_diagnosis sqlite config
        (λ s. s)
        managed_node
        "1m0s"
        none
        (ok without_agent)
        reachable
        clock
        server.engine).0 in
    let spec = provision_spec managed_node in
    ((delivered ≡ some (provision (λ s. s) spec reachable)) ↔ (
      (managed_node.provision ≡ true)
      × (managed_node.auto_restart ≡ true)
      × Gone spec.pid_path spec.remote_path none (ok without_agent)))
    × ((outcome : Option ProvisionError)
        → delivered ≡ some outcome
        → outcome ≡ provision (λ s. s) spec reachable)
recovers_iff_example =
    recovers_iff sqlite config (λ s. s) managed_node "1m0s" none (ok without_agent) reachable clock
      server.engine

-- The agent of the node is delivered, and the event is written.
agent_comes_back :
    let ran =
      run_diagnosis sqlite config
        (λ s. s)
        managed_node
        "1m0s"
        none
        (ok without_agent)
        reachable
        clock
        server.engine in
    (ran.0 ≡ some none)
    × (map (λ (e : Event × ℤ). e.0.severity) ran.1.store.events ≡ "warning" ∷ [])
unfolding run_diagnosis diagnose agent_alive classify diagnosed_event emit provision provision_spec
    default_rules create_notification create_event event_row
agent_comes_back = (refl, refl)
