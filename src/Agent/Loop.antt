-- ===== src/Agent/Loop.antt =====
-- agent.go: the name of a node, the loop of `Run` that reports and registers anew, and the loop that polls.
use psychic_funicular.Base.{String, Option, none, some, List, [], ◌∷◌, if◌then◌else◌, str_eq}
use psychic_funicular.Server.Messages.{Beat, Poll}
use psychic_funicular.Agent.Executor.{Executor, handle_poll}

-- The name of the configuration, or that of the host, if the system has one.
unfoldable pub node_name : String → Option String → String
node_name configured hostname =
    if str_eq configured ""
    then elim hostname [ some h ↦ h | none ↦ "unknown-node" ]
    else configured

-- The id that a new registration gives, if it gives one.
abbrev pub registered_or : String → Option String → String
registered_or id none = id
registered_or id (some new) = new

-- A round of the loop: the answer to the report, if the call has one, and the id that `register` returns if
-- it is asked for. An error of either leaves the id.
unfoldable pub report_round : Option Beat → Option String → String → String
report_round none registered id = id
report_round (some beat) registered id =
    if beat.should_reregister then registered_or id registered else id

-- The ids after some rounds of reports.
unfoldable pub report_loop : List (Option Beat × Option String) → String → String
unfolding report_round
report_loop [] id = id
report_loop ((answer, registered) ∷ rounds) id =
    report_loop rounds (report_round answer registered id)

-- A round of `pollLoop`: without an id, or an answer, nothing is done.
unfoldable pub poll_round : String → Option Poll → Executor → Executor
unfolding handle_poll
poll_round id none e = e
poll_round id (some resp) e = if str_eq id "" then e else handle_poll resp e
