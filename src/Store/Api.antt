-- ===== src/Store/Api.antt =====
-- store.go: the interface `Store`. A call that writes returns its result and the new state.
use psychic_funicular.Base.{ℕ, Bool, String, Option, List}
use psychic_funicular.Base.Int.{ℤ}
use psychic_funicular.Time.{Time}
use psychic_funicular.Model.{Node, Job, JobState, AllocDevice, Event, Notification}

-- A value or an `error`.
pub data Result {ℓ} (A : Type ℓ) : Type ℓ where
  ok : A → Result A
  err : String → Result A

-- `CancelJob` reads the clock; here it is handed the time. A state filter is a text.
pub record Store : Type 1 where
  pub State : Type 0
  pub register_node : Node → State → Result String × State
  pub heartbeat : Node → Time → State → Result Bool × State
  pub list_nodes : State → Result (List Node)
  pub get_node : String → State → Result (Option Node)
  pub mark_stale_down : Time → State → Result ℕ × State
  pub create_job : Job → State → Result (Unit {0}) × State
  pub get_job : String → State → Result (Option Job)
  pub list_jobs : String → String → State → Result (List Job)
  pub list_pending_jobs : State → Result (List Job)
  pub list_active_jobs : State → Result (List Job)
  pub list_jobs_by_node_state : String → JobState → State → Result (List Job)
  pub assign_job : String → String → String → List AllocDevice → State → Result (Unit {0}) × State
  pub mark_job_running : String → Time → State → Result (Unit {0}) × State
  pub finish_job : String → JobState → ℤ → String → Time → State → Result (Unit {0}) × State
  pub cancel_job : String → Time → State → Result JobState × State
  pub create_event : Event → State → Result (Unit {0}) × State
  pub list_events : ℤ → State → Result (List Event)
  pub create_notification : Notification → State → Result (Unit {0}) × State
  pub list_notifications : ℤ → State → Result (List Notification)
