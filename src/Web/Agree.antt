-- ===== src/Web/Agree.antt =====
-- The web console answers what the gRPC services answer.
use psychic_funicular.Base.{
  ◌≡◌, ◌⊎◌, refl, ap, false, String, Option, none, some, List, [], ◌∷◌, map, str_eq, inl, inr,
}
use psychic_funicular.Base.Int.{ℤ, pos}
use psychic_funicular.Platform.{Platform}
use psychic_funicular.Time.{Time}
use psychic_funicular.Model.{Event, Notification}
use psychic_funicular.Store.Api.{Store, Result, ok, err}
use psychic_funicular.Notify.Engine.{Config}
use psychic_funicular.Strings.{trim_space}
use psychic_funicular.Server.Convert.{JobMessage, job_to_proto}
use psychic_funicular.Server.State.{Reply, reply, invalid_argument, not_found, internal, Server}
use psychic_funicular.Server.Cluster.{
  answer_all, cancel_handler, list_jobs_handler, get_job_handler, list_events_handler,
  list_notifications_handler, event_message, notification_message,
}
use psychic_funicular.Web.Json.{
  JobJson, job_to_json, EventJson, event_to_json, NotifJson, notif_to_json,
}
use psychic_funicular.Web.Sizes.{query_int}
use psychic_funicular.Web.Handlers.{
  Answer, answered, refused, list_answer, web_cancel, web_list_jobs, web_get_job, web_list_events,
  web_list_notifications,
}

-- The HTTP answer that stands for a gRPC answer.
abbrev pub http_of {ℓ κ} : {A : Type ℓ} {B : Type κ} → (A → B) → Reply A → Answer B
http_of f (reply a) = answered (f a)
http_of f (invalid_argument e) = refused 400 e
http_of f (not_found e) = refused 404 e
http_of f (internal e) = refused 500 e

-- The messages of gen/skipper/v1 as JSON.
abbrev pub job_message_json : JobMessage → JobJson
job_message_json m = record {
  id = m.id;
  name = m.name;
  owner = m.owner;
  partition = m.partition;
  state = m.state;
  priority = m.priority;
  command = m.command;
  workdir = m.workdir;
  env = m.env;
  request = m.request;
  node_id = m.node_id;
  node_name = m.node_name;
  devices = m.devices;
  exit_code = m.exit_code;
  reason = m.reason;
  submit_at_unix = m.submit_at_unix;
  start_at_unix = m.start_at_unix;
  end_at_unix = m.end_at_unix;
}

abbrev pub event_message_json : Event × ℤ → EventJson
event_message_json (e, at) = record {
  id = e.id;
  kind = e.kind;
  severity = e.severity;
  source = e.source;
  summary = e.summary;
  labels = e.labels;
  time_unix = at;
}

abbrev pub notification_message_json : Notification × ℤ → NotifJson
notification_message_json (n, at) = record {
  id = n.id;
  event_id = n.event_id;
  event_type = n.event_type;
  rule = n.rule;
  channel = n.channel;
  recipients = n.recipients;
  status = n.status;
  error = n.error;
  summary = n.summary;
  time_unix = at;
}

module _ {ℓ κ μ} {A : Type ℓ} {B : Type κ} {C : Type μ} (f : A → B) (h : B → C) where
  map-map : (xs : List A) → map (λ x. h (f x)) xs ≡ map h (map f xs)
  map-map [] = refl
  map-map (x ∷ xs) = ap (λ ys. h (f x) ∷ ys) (map-map xs)

  lists_agree :
      (failed : String) (r : Result (List A))
      → list_answer failed (λ x. h (f x)) r ≡ http_of (map h) (answer_all failed f r)
  lists_agree failed (ok xs) = ap answered (map-map xs)
  lists_agree failed (err e) = refl

pub result_cases {ℓ} :
    {A : Type ℓ} (r : Result A) → ((e : String) × (r ≡ err e)) ⊎ ((a : A) × (r ≡ ok a))
result_cases (ok a) = inr (a, refl)
result_cases (err e) = inl (e, refl)

found_cases {ℓ} :
    {A : Type ℓ} (r : Result (Option A))
    → ((e : String) × (r ≡ err e)) ⊎ ((r ≡ ok none) ⊎ ((a : A) × (r ≡ ok (some a))))
found_cases (err e) = inl (e, refl)
found_cases (ok none) = inr (inl refl)
found_cases (ok (some a)) = inr (inr (a, refl))

module _ (p : Platform) (s : Store) (cfg : Config) where
  open s use {list_jobs, get_job, cancel_job, list_events, list_notifications}

  get_agrees :
      (id : String) (w : Server p s cfg)
      → web_get_job p s cfg id w ≡ http_of job_message_json (get_job_handler p s cfg id w)
  unfolding web_get_job get_job_handler job_to_json job_to_proto
  get_agrees id w = elim (found_cases (get_job id w.engine.store)) [
    | inl (e, h) ↦ rw (h, web_get_job, get_job_handler) refl
    | inr (inl h) ↦ rw (h, web_get_job, get_job_handler) refl
    | inr (inr (j, h)) ↦ rw (h, web_get_job, get_job_handler) refl
  ]

  cancel_agrees :
      (id : String) (now : Time) (w : Server p s cfg)
      → str_eq id "" ≡ false
      → web_cancel p s cfg id now w ≡ (
        http_of (λ st. st) (cancel_handler p s cfg id now w).0,
        (cancel_handler p s cfg id now w).1,
      )
  unfolding web_cancel cancel_handler
  cancel_agrees id now w h = elim (result_cases (cancel_job id now w.engine.store).0) [
    | inl (e, k) ↦ rw (h, k) refl
    | inr (st, k) ↦ rw (h, k) refl
  ]

  -- The console answers as the gRPC services do, with the statuses 400, 404 and 500 for theirs: a look at a
  -- job; a cancellation of a job whose id is not empty, which also changes the server alike; and the lists
  -- of the jobs, events and notifications, for the texts without blanks around them, the state in upper
  -- case, and the limit of the query, or 100.
  pub web_agrees :
      (id state owner limit : String) (now : Time) (w : Server p s cfg)
      → str_eq id "" ≡ false
      → (web_get_job p s cfg id w ≡ http_of job_message_json (get_job_handler p s cfg id w))
        × (web_cancel p s cfg id now w ≡ (
          http_of (λ st. st) (cancel_handler p s cfg id now w).0,
          (cancel_handler p s cfg id now w).1,
        ))
        × (web_list_jobs p s cfg state owner w
            ≡ http_of
                (map job_message_json)
                (list_jobs_handler p s cfg (p.to_upper (trim_space state)) (trim_space owner) w))
        × (web_list_events p s cfg limit w
            ≡ http_of
                (map event_message_json)
                (list_events_handler p s cfg (pos (query_int limit 100)) w))
        × (web_list_notifications p s cfg limit w
            ≡ http_of
                (map notification_message_json)
                (list_notifications_handler p s cfg (pos (query_int limit 100)) w))
  unfolding web_list_jobs list_jobs_handler web_list_events list_events_handler
      web_list_notifications list_notifications_handler event_to_json notif_to_json job_to_json
      job_to_proto
  web_agrees id state owner limit now w h = (
    get_agrees id w,
    cancel_agrees id now w h,
    lists_agree job_to_proto job_message_json "list jobs failed"
        (list_jobs (p.to_upper (trim_space state)) (trim_space owner) w.engine.store),
    lists_agree event_message event_message_json "list events failed"
        (list_events (pos (query_int limit 100)) w.engine.store),
    lists_agree notification_message notification_message_json "list notifications failed"
        (list_notifications (pos (query_int limit 100)) w.engine.store),
  )
