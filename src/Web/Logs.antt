-- ===== src/Web/Logs.antt =====
-- webserver.go: `jobLogsStream`, which sends the log of a job as plain text.
pub mod Agree
use psychic_funicular.Base.{
  ℕ, Bool, not, ◌||◌, String, Option, none, some, List, [], ◌∷◌, ◌++◌, if◌then◌else◌, length,
}
use psychic_funicular.Model.{JobState}
use psychic_funicular.Store.Api.{Result, ok, err}
use psychic_funicular.Server.Logs.{Bytes, Round, open_log, absent, broken, open_at, drain, is_over}

-- The stream is closed, or still open in the rounds that are looked at. Once it has begun it names no error.
pub data HttpEnding : Type 0 where
  closed still_open : HttpEnding
  refused : ℕ → String → HttpEnding

abbrev pub Stream : Type 0
Stream = List Bytes × HttpEnding

-- A round in which the file is open, behind its first reading.
unfoldable pub http_behind_drain : Bool → Round → Stream → List Bytes × Option String → Stream
unfolding drain
http_behind_drain follow t rest (sent, some e) = (sent, closed)
http_behind_drain follow t rest (sent, none) =
    if not follow
    then (sent, closed)
    else if is_over t.job
    then (sent ++ (drain t.later_fault (length t.content) t.later).0, closed)
    else if t.gone
    then (sent, closed)
    else (sent ++ rest.0, rest.1)

unfoldable pub http_loop : Bool → Option ℕ → List Round → Stream
unfolding drain http_behind_drain
http_loop follow seen [] = ([], still_open)
http_loop follow seen (t ∷ ts) = elim (open_log seen t.opening) [
  | broken ↦ ([], closed)
  | absent ↦
      let rest = http_loop follow none ts in
      if (not follow || is_over t.job) || t.gone then ([], closed) else rest
  | open_at place ↦
      let rest = http_loop follow (some (length t.content)) ts in
      http_behind_drain follow t rest (drain t.fault place t.content)
]

unfoldable pub job_logs_stream : Bool → Result (Option JobState) → List Round → Stream
unfolding http_loop
job_logs_stream follow job rounds = elim job [
  | err e ↦ ([], refused 500 "get job failed")
  | ok found ↦ elim found [
    | none ↦ ([], refused 404 "job not found")
    | some state ↦ http_loop follow none rounds
  ]
]
