-- ===== src/Web/Tests.antt =====
-- The theorems on the console at concrete requests.
use psychic_funicular.Base.{◌≡◌, refl, true, false, String, none, some, [], ◌∷◌, map}
use psychic_funicular.Base.Int.{pos}
use psychic_funicular.Model.{running, completed}
use psychic_funicular.Samples.{exact, clock}
use psychic_funicular.Store.Api.{ok}
use psychic_funicular.Store.Sqlite.{sqlite}
use psychic_funicular.Strings.{trim_space}
use psychic_funicular.Server.Samples.{config, server}
use psychic_funicular.Server.Cluster.{
  submit_job, cancel_handler, list_jobs_handler, get_job_handler, list_events_handler,
  list_notifications_handler,
}
use psychic_funicular.Server.Logs.{Round, missing, there, get_job_logs, finished}
use psychic_funicular.Server.Logs.Delivered.{Sees, no_file, reads, ends, joined}
use psychic_funicular.Web.Sizes.{query_int, parse_size}
use psychic_funicular.Web.Handlers.{
  SubmitReq, web_submit, web_cancel, web_list_jobs, web_get_job, web_list_events,
  web_list_notifications,
}
use psychic_funicular.Web.Agree.{
  http_of, job_message_json, event_message_json, notification_message_json, web_agrees,
}
use psychic_funicular.Web.Submit.{Refines, as_request, web_submit-Refines}
use psychic_funicular.Web.Logs.{job_logs_stream}
use psychic_funicular.Web.Logs.Agree.{followers_get_log}

abbrev form : SubmitReq
form = record {
  name = "train";
  owner = "li";
  partition = "gpu";
  priority = pos 1;
  command = "python train.py";
  workdir = "";
  cpus = 4;
  mem = "32G";
  gpus = 1;
  gpu_type = "";
  walltime = "0";
  env = [];
}

web_submit-Refines_example :
    Refines
      (as_request exact (some form))
      (λ req. submit_job exact sqlite config req clock server)
      server
      (web_submit exact sqlite config (some form) clock server)
web_submit-Refines_example = web_submit-Refines exact sqlite config (some form) clock server

size_read : parse_size exact "32G" ≡ ok 34359738368
unfolding parse_size psychic_funicular.Strings.Numbers.parse_uint
size_read = refl

abbrev limit : String
limit = "20"

web_agrees_example :
    (web_get_job exact sqlite config "one" server
      ≡ http_of job_message_json (get_job_handler exact sqlite config "one" server))
    × (web_cancel exact sqlite config "one" clock server ≡ (
      http_of (λ st. st) (cancel_handler exact sqlite config "one" clock server).0,
      (cancel_handler exact sqlite config "one" clock server).1,
    ))
    × (web_list_jobs exact sqlite config "pending" "li" server
        ≡ http_of (map job_message_json) (
            list_jobs_handler exact sqlite config
              (exact.to_upper (trim_space "pending"))
              (trim_space "li")
              server))
    × (web_list_events exact sqlite config limit server
        ≡ http_of
            (map event_message_json)
            (list_events_handler exact sqlite config (pos (query_int limit 100)) server))
    × (web_list_notifications exact sqlite config limit server
        ≡ http_of
            (map notification_message_json)
            (list_notifications_handler exact sqlite config (pos (query_int limit 100)) server))
web_agrees_example = web_agrees exact sqlite config "one" "pending" "li" limit clock server refl

abbrev early : Round
early = record {
  opening = missing;
  content = [];
  fault = none;
  job = ok (some running);
  later = [];
  later_fault = none;
  gone = false;
}

abbrev middle : Round
middle = record early { opening = there; content = 1 ∷ 2 ∷ [] }

abbrev late : Round
late = record middle {
  content = 1 ∷ 2 ∷ 3 ∷ [];
  job = ok (some completed);
  later = 1 ∷ 2 ∷ 3 ∷ 4 ∷ [];
}

rounds_seen : Sees none (early ∷ middle ∷ late ∷ []) (1 ∷ 2 ∷ 3 ∷ 4 ∷ [])
rounds_seen =
    no_file (refl, refl, refl) refl refl
      (reads (1 ∷ 2 ∷ []) (refl, refl, refl) refl refl refl
        (ends (3 ∷ []) (4 ∷ []) (refl, refl, refl) refl refl refl refl))

followers_get_log_example :
    ((get_job_logs "one" true (ok (some running)) (early ∷ middle ∷ late ∷ [])).1 ≡ finished)
    × (joined (get_job_logs "one" true (ok (some running)) (early ∷ middle ∷ late ∷ [])).0
        ≡ 1 ∷ 2 ∷ 3 ∷ 4 ∷ [])
    × (joined (job_logs_stream true (ok (some running)) (early ∷ middle ∷ late ∷ [])).0
        ≡ 1 ∷ 2 ∷ 3 ∷ 4 ∷ [])
followers_get_log_example =
    followers_get_log "one" running (early ∷ middle ∷ late ∷ []) (1 ∷ 2 ∷ 3 ∷ 4 ∷ []) refl
      rounds_seen
