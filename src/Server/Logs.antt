-- ===== src/Server/Logs.antt =====
-- clusterjobs.go: `GetJobLogs`, which sends the log of a job to a client while the job writes it.
pub mod Delivered
use psychic_funicular.Base.{
  ℕ, zero, suc, Bool, false, not, ◌||◌, String, Option, none, some, List, [], ◌∷◌, ◌++◌,
  if◌then◌else◌, str_eq, length, take,
}
use psychic_funicular.Model.{JobState, is_terminal_state}
use psychic_funicular.Store.Api.{Result, ok, err}

abbrev pub Bytes : Type 0
Bytes = List ℕ

abbrev pub skip {ℓ} : {A : Type ℓ} → ℕ → List A → List A
skip zero xs = xs
skip (suc n) [] = []
skip (suc n) (x ∷ xs) = skip n xs

-- The size of the buffer.
abbrev pub buffer : ℕ
buffer = 32768

-- What is read, buffer by buffer; the number of bytes is enough fuel.
unfoldable pub chunks : ℕ → Bytes → List Bytes
chunks zero bytes = []
chunks (suc fuel) [] = []
chunks (suc fuel) (b ∷ bytes) = take buffer (b ∷ bytes) ∷ chunks fuel (skip buffer (b ∷ bytes))

-- What the opening of the file meets.
pub data Opening : Type 0 where
  missing there : Opening
  refused : String → Opening

-- The world in one round of the loop: the opening of the file, its bytes at the first and at the second
-- reading, and the job as the store gives it in between. A reading meets an error behind some chunks, or
-- none. `gone` says that the client leaves while the loop waits.
pub record Round : Type 0 where
  pub opening : Opening
  pub content : Bytes
  pub fault : Option (ℕ × String)
  pub job : Result (Option JobState)
  pub later : Bytes
  pub later_fault : Option (ℕ × String)
  pub gone : Bool

-- The file of the loop: not there yet, open and read up to a place, or not to be opened.
pub data File : Type 0 where
  absent broken : File
  open_at : ℕ → File

abbrev pub open_log : Option ℕ → Opening → File
open_log (some place) opening = open_at place
open_log none missing = absent
open_log none there = open_at 0
open_log none (refused e) = broken

-- `drainLogs` from a place on.
unfoldable pub drain : Option (ℕ × String) → ℕ → Bytes → List Bytes × Option String
unfolding chunks
drain none place content = let left = skip place content in (chunks (length left) left, none)
drain (some (n, e)) place content =
    let left = skip place content in (take n (chunks (length left) left), some e)

abbrev pub is_over : Result (Option JobState) → Bool
is_over (ok (some state)) = is_terminal_state state
is_over _ = false

-- How the call ends: without an error, with one, with the error of a context that has ended, or not in the
-- rounds that are looked at.
pub data Ending : Type 0 where
  finished cancelled running : Ending
  failed : String → Ending

abbrev pub ending_of : Option String → Ending
ending_of none = finished
ending_of (some e) = failed e

-- Chunks that were sent before.
abbrev pub sent_first : List Bytes → List Bytes × Ending → List Bytes × Ending
sent_first sent rest = (sent ++ rest.0, rest.1)

unfoldable pub last_drain : Round → List Bytes × Ending
unfolding drain
last_drain t =
    let (sent, fault) = drain t.later_fault (length t.content) t.later in (sent, ending_of fault)

-- A round in which the file is open, behind its first reading; `rest` are the rounds behind it.
unfoldable pub behind_drain :
    Bool → Round → List Bytes × Ending → List Bytes × Option String → List Bytes × Ending
unfolding last_drain
behind_drain follow t rest (sent, some e) = (sent, failed e)
behind_drain follow t rest (sent, none) = sent_first sent (
    if not follow
    then ([], finished)
    else if is_over t.job
    then last_drain t
    else if t.gone
    then ([], cancelled)
    else rest)

unfoldable pub follow_loop : Bool → Option ℕ → List Round → List Bytes × Ending
unfolding drain behind_drain
follow_loop follow seen [] = ([], running)
follow_loop follow seen (t ∷ ts) = elim (open_log seen t.opening) [
  | broken ↦ ([], failed "open logs failed")
  | absent ↦
      let rest = follow_loop follow none ts in
      if not follow || is_over t.job
      then ([], finished)
      else if t.gone
      then ([], cancelled)
      else rest
  | open_at place ↦
      let rest = follow_loop follow (some (length t.content)) ts in
      behind_drain follow t rest (drain t.fault place t.content)
]

-- The answer of the call; `job` is the first look into the store.
unfoldable pub get_job_logs :
    String → Bool → Result (Option JobState) → List Round → List Bytes × Ending
unfolding follow_loop
get_job_logs job_id follow job rounds =
    if str_eq job_id "" then ([], failed "job_id is required") else elim job [
      | err e ↦ ([], failed "get job failed")
      | ok found ↦ elim found [
        | none ↦ ([], failed "job not found")
        | some state ↦ follow_loop follow none rounds
      ]
    ]
