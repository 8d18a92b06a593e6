-- ===== src/Agent/Run.antt =====
-- executor.go: what a run reports, and the environment of its process. What the system does is the value
-- `Fate`: where the run fails, or how its process ends.
use psychic_funicular.Base.{Bool, String, List, [], ◌∷◌, ◌++◌, map, if◌then◌else◌, str_eq}
use psychic_funicular.Base.Int.{ℤ, pos, negsuc}
use psychic_funicular.Model.{JobState, running, completed, failed, cancelled, timeout, AllocDevice}
use psychic_funicular.Format.{concat, join, decimal}
use psychic_funicular.Server.Convert.{Assignment}

-- The error of `cmd.Wait`: none, an exit with a code (-1 for a signal), or another one.
pub data WaitError : Type 0 where
  no_error : WaitError
  exit_error : ℤ → WaitError
  other_error : String → WaitError

pub record Report : Type 0 where
  pub state : JobState
  pub code : ℤ
  pub reason : String

abbrev pub report : JobState → ℤ → String → Report
report state code reason = record { state = state; code = code; reason = reason }

-- The `switch` of `classify`, with the exit code.
unfoldable pub outcome_of : WaitError → ℤ → String → Bool → Report
outcome_of wait_err code reason timed_out =
    if str_eq reason "cancel"
    then report cancelled code "cancelled by user"
    else if timed_out
    then report timeout code "walltime exceeded"
    else elim wait_err [
      | no_error ↦ report completed (pos 0) ""
      | exit_error _ ↦ report failed code ""
      | other_error _ ↦ report failed code ""
    ]

unfoldable pub classify : WaitError → String → Bool → Report
unfolding outcome_of
classify no_error reason timed_out = outcome_of no_error (pos 0) reason timed_out
classify (exit_error code) reason timed_out = outcome_of (exit_error code) code reason timed_out
classify (other_error e) reason timed_out = report failed (negsuc 0) e

pub data Fate : Type 0 where
  no_workdir : String → Fate
  no_pipe : String → Fate
  no_start : String → Fate
  ran : WaitError → String → Bool → Fate

-- The reports of `run`, in order.
unfoldable pub reports : Fate → List Report
unfolding classify
reports (no_workdir e) = report failed (negsuc 0) (concat ("workdir: " ∷ e ∷ [])) ∷ []
reports (no_pipe e) = report failed (negsuc 0) (concat ("pipe: " ∷ e ∷ [])) ∷ []
reports (no_start e) = report failed (negsuc 0) (concat ("start: " ∷ e ∷ [])) ∷ []
reports (ran wait_err reason timed_out) =
    report running (pos 0) "" ∷ classify wait_err reason timed_out ∷ []

-- The indices of the devices of a kind, in order.
unfoldable pub indices : String → List AllocDevice → List String
indices kind [] = []
indices kind (d ∷ ds) =
    let rest = indices kind ds in if str_eq d.kind kind then decimal d.index ∷ rest else rest

abbrev pub setting : String → String → String
setting k v = concat (k ∷ "=" ∷ v ∷ [])

-- `environ` is the environment of the agent.
unfoldable pub build_env : List String → Assignment → List String
unfolding indices
build_env environ a =
    environ
    ++ map (λ (kv : String × String). setting kv.0 kv.1) a.env
    ++ setting "CUDA_VISIBLE_DEVICES" (join "," (indices "gpu" a.devices))
      ∷ setting "ASCEND_RT_VISIBLE_DEVICES" (join "," (indices "npu" a.devices))
      ∷ setting "SKIPPER_JOB_ID" a.job_id
      ∷ []
