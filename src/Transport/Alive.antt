-- ===== src/Transport/Alive.antt =====
-- internal/transport/diagnose.go: `Diagnose`, and the probe of an agent's process. The connection, the
-- session and what the command prints are arguments.
use psychic_funicular.Base.{Bool, false, String, Option, none, some, [], ◌∷◌, str_contains}
use psychic_funicular.Format.{concat}
use psychic_funicular.Store.Api.{Result, ok, err}
use psychic_funicular.Transport.Shell.{shell_quote}
use psychic_funicular.Server.Diagnose.{other, Diagnosis, classify}

unfoldable pub alive_command : String → String → String
unfolding shell_quote
alive_command pid_path agent_path = concat (
    "p=$(cat "
    ∷ shell_quote pid_path
    ∷ " 2>/dev/null); if [ -n \"$p\" ] && kill -0 \"$p\" 2>/dev/null; then echo ALIVE; exit 0; fi; "
    ∷ "for c in /proc/[0-9]*/cmdline; do if tr '\\0' ' ' < \"$c\" 2>/dev/null | grep -qF "
    ∷ shell_quote agent_path
    ∷ "; then echo ALIVE; exit 0; fi; done; echo DEAD"
    ∷ [])

-- What a connection gives: the error of a new session, and what a command prints.
pub record Probed : Type 0 where
  pub session_fault : Option String
  pub output : String → Result String

unfoldable pub agent_alive : Probed → String → String → Result Bool
unfolding alive_command
agent_alive client pid_path agent_path = elim client.session_fault [
  | some e ↦ err e
  | none ↦ elim (client.output (alive_command pid_path agent_path)) [
    | err e ↦ err e
    | ok out ↦ ok (str_contains out "ALIVE")
  ]
]

-- The error of the context, the connection that `dialSSH` returns, and the paths of the agent.
unfoldable pub diagnose : Option String → Result Probed → String → String → Diagnosis
unfolding classify agent_alive
diagnose (some e) client pid_path agent_path = record {
  cause = other;
  detail = concat ("诊断被取消: " ∷ e ∷ []);
}
diagnose none (err e) pid_path agent_path = classify (some e) none false
diagnose none (ok client) pid_path agent_path = elim (agent_alive client pid_path agent_path) [
  | err e ↦ classify none (some e) false
  | ok alive ↦ classify none none alive
]
