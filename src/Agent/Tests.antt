-- ===== src/Agent/Tests.antt =====
-- The theorems on the agent at concrete inputs.
use Prim.Native.String.{◌++◌ as text_append}
use psychic_funicular.Base.{
  ℕ, ◌*◌, ◌^◌, ◌≡◌, refl, ◌↔◌, false, String, Option, none, some, List, [], ◌∷◌, arith,
  if◌then◌else◌, ltb, length, get_elem?, str_eq, lookup, insert,
}
use psychic_funicular.Base.Int.{pos, negsuc}
use psychic_funicular.Time.{nanos}
use psychic_funicular.Model.{completed}
use psychic_funicular.Format.{decimal}
use psychic_funicular.Agent.Executor.{new_executor}
use psychic_funicular.Agent.Run.{no_error, exit_error, ran, classify, reports, build_env}
use psychic_funicular.Agent.Register.{register}
use psychic_funicular.Agent.Exclusive.{
  Step, starts, cancels, begins, ends, take_steps, Exclusive, one_run_per_job,
}
use psychic_funicular.Agent.Outcome.{Complete, reports-Complete, completed_iff}
use psychic_funicular.Agent.Backoff.{register_returns}
use psychic_funicular.Agent.Pump.{Output, read, last, pump_logs, receive_logs}
use psychic_funicular.Agent.Pumped.{printed, content, pumped_is_logged}
use psychic_funicular.Agent.Rejoin.{known, agent_round, agent_rejoins}
use psychic_funicular.Notify.Watched.{Snapshot}
use psychic_funicular.Server.State.{reply, log_path, append_log}
use psychic_funicular.Server.Messages.{RegisterRequest}
use psychic_funicular.Server.Agent.{report_metrics, register_handler, append_logs}
use psychic_funicular.Server.Samples.{config, server}
use psychic_funicular.Store.Rows.{node_row}
use psychic_funicular.Store.Nodes.{register_node, heartbeat}
use psychic_funicular.Store.Sqlite.{sqlite}
use psychic_funicular.Samples.{exact, clock, slot}

abbrev calls : List Step
calls = starts "a" ∷ starts "a" ∷ begins "a" ∷ starts "b" ∷ cancels "a" ∷ ends "a" ∷ starts "a" ∷ []

one_run_per_job_example : Exclusive (take_steps calls new_executor)
unfolding lookup
one_run_per_job_example = one_run_per_job calls new_executor (λ id. refl)

reports-Complete_example : Complete (reports (ran (exit_error (negsuc 0)) "cancel" false))
reports-Complete_example = reports-Complete (ran (exit_error (negsuc 0)) "cancel" false)

ended_well :
    ((classify no_error "" false).state ≡ completed)
    ↔ ((no_error ≡ no_error) × (str_eq "" "cancel" ≡ false) × (false ≡ false))
ended_well = completed_iff no_error "" false

abbrev third_try : ℕ → Option String
third_try n = if ltb n 2 then none else some "n1"

register_returns_example :
    ((register 5 third_try).1 ≡ some "n1")
    × (length (register 5 third_try).0 ≡ 2)
    × ((i w : ℕ)
        → get_elem? (register 5 third_try).0 i ≡ some w
        → w ≡ (if ltb i 4 then 2 ^ i else 16) * nanos)
register_returns_example =
    register_returns 5 2 third_try "n1" (omega arith) (λ i l. ground (arith, l)) refl

abbrev request : RegisterRequest
request = record {
  name = "n9";
  partition = "cpu";
  resources = none;
  labels = [];
  agent_version = "dev";
}

abbrev no_values : Snapshot exact
no_values = record { timestamp_unix = pos 0; cpu = none; mem = none; disks = []; devices = [] }

agent_rejoins_example :
    let (id, w) =
      agent_round exact sqlite config request "10.0.0.9" clock no_values ("gone", server) in
    (id ≡ "id") × ((report_metrics exact sqlite config id (some no_values) clock w).0 ≡ reply known)
unfolding register_handler register_node report_metrics heartbeat node_row
agent_rejoins_example =
    agent_rejoins exact config request "10.0.0.9" clock clock "gone" "id" no_values server refl refl
      refl

-- The devices that a job sees are those of its assignment.
env_of_gpu_job :
    build_env ("HOME=/" ∷ []) (record {
      job_id = "j";
      command = "ls";
      env = ("A", "1") ∷ [];
      workdir = "";
      devices = slot 0 ∷ slot 3 ∷ [];
      walltime_sec = pos 0;
    })
    ≡ "HOME=/" ∷ "A=1" ∷ "CUDA_VISIBLE_DEVICES=0,3" ∷ "ASCEND_RT_VISIBLE_DEVICES="
      ∷ "SKIPPER_JOB_ID=j" ∷ []
unfolding build_env decimal
env_of_gpu_job = refl

-- A pipe that hands out a line in two pieces, with nothing between them.
abbrev output : Output
output = read "hel" (read "" (last "lo\n"))

pumped_is_logged_example :
    content "logs/j.log"
      (receive_logs exact sqlite config "logs" "j" (pump_logs output) server).logs
    ≡ (if str_eq "logs/j.log" "logs/j.log"
        then text_append (content "logs/j.log" server.logs) (printed output)
        else content "logs/j.log" server.logs)
unfolding log_path
pumped_is_logged_example =
    pumped_is_logged exact sqlite config "logs" "j" "logs/j.log" "logs/j.log" output server refl

line_is_logged :
    (receive_logs exact sqlite config "logs" "j" (pump_logs output) server).logs
    ≡ ("logs/j.log", "hello\n") ∷ []
unfolding receive_logs pump_logs append_logs append_log log_path insert lookup
line_is_logged = refl
