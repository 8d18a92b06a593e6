-- ===== src/Server/Requests.antt =====
-- The requests that reach the two services, and what they do to the table of jobs.
use psychic_funicular.Base.{String, Option, List, [], ◌∷◌}
use psychic_funicular.Platform.{Platform}
use psychic_funicular.Time.{Time}
use psychic_funicular.Store.Sqlite.{sqlite}
use psychic_funicular.Store.Lifecycle.{Step, Step-Evolves, Evolves, Evolves-refl, Evolves-trans}
use psychic_funicular.Store.Keys.{UniqueJobs}
use psychic_funicular.Notify.Engine.{Config}
use psychic_funicular.Notify.Watched.{Snapshot}
use psychic_funicular.Server.Convert.{Resources}
use psychic_funicular.Server.State.{Server}
use psychic_funicular.Server.Messages.{RegisterRequest, StatusRequest}
use psychic_funicular.Server.Agent.{
  register_handler, heartbeat_handler, report_metrics, update_job_status,
}
use psychic_funicular.Server.Cluster.{SubmitRequest, submit_job, cancel_handler}
use psychic_funicular.Server.Effects.{
  Follows, update-Follows, submit-Follows, cancel-Follows, register-Follows, heartbeat-Follows,
  report-Follows,
}

-- A request of an agent or of a client that may write, and the time it is served.
pub data Request (p : Platform) : Type 0 where
  registers : RegisterRequest → String → Request p
  beats : String → Option Resources → Request p
  reports : String → Option (Snapshot p) → Request p
  updates : StatusRequest → Request p
  submits : SubmitRequest → Request p
  cancels : String → Request p

module _ (p : Platform) (cfg : Config) where
  unfoldable pub serve : Request p → Time → Server p sqlite cfg → Server p sqlite cfg
  serve (registers req addr) now w = (register_handler p sqlite cfg req addr now w).1
  serve (beats id r) now w = (heartbeat_handler p sqlite cfg id r now w).1
  serve (reports id snap) now w = (report_metrics p sqlite cfg id snap now w).1
  serve (updates req) now w = (update_job_status p sqlite cfg req now w).1
  serve (submits req) now w = (submit_job p sqlite cfg req now w).1
  serve (cancels id) now w = (cancel_handler p sqlite cfg id now w).1

  serve-Follows :
      (r : Request p) (now : Time) (w : Server p sqlite cfg)
      → UniqueJobs w.engine.store.jobs
      → Follows w.engine.store.jobs (serve r now w).engine.store.jobs
  unfolding serve
  serve-Follows (registers req addr) now w u = register-Follows p cfg req addr now w u
  serve-Follows (beats id r) now w u = heartbeat-Follows p cfg id r now w u
  serve-Follows (reports id snap) now w u = report-Follows p cfg id snap now w u
  serve-Follows (updates req) now w u = update-Follows p cfg req now w u
  serve-Follows (submits req) now w u = submit-Follows p cfg req now w u
  serve-Follows (cancels id) now w u = cancel-Follows p cfg id now w u

  -- Each request with its time, in the order in which they are served.
  unfoldable pub serve_all : List (Request p × Time) → Server p sqlite cfg → Server p sqlite cfg
  serve_all [] w = w
  serve_all (r ∷ rs) w = serve_all rs (serve r.0 r.1 w)

  -- Each request of a series takes the table of jobs by one step.
  abbrev pub TracedRequests : List (Request p × Time) → Server p sqlite cfg → Type 0
  TracedRequests [] w = Unit
  TracedRequests (r ∷ rs) w =
      Step w.engine.store.jobs (serve r.0 r.1 w).engine.store.jobs
      × TracedRequests rs (serve r.0 r.1 w)

  -- Whatever the agents and the clients send, in whatever order, and whatever events, notifications and
  -- failures come of it, on a table of jobs with unique ids: the ids stay unique. Each request leaves a job
  -- as it is, or takes its state along one edge of the diagram and keeps its place and all that was
  -- submitted: id, name, owner, partition, priority, command, environment, directory, cores, memory,
  -- devices and their type, walltime and time. A request adds one job at most, behind the others and
  -- PENDING. So each job is still there after the series, with the same submission, in a state that the
  -- diagram reaches from the old one.
  pub requests_follow_lifecycle :
      (rs : List (Request p × Time)) (w : Server p sqlite cfg)
      → UniqueJobs w.engine.store.jobs
      → UniqueJobs (serve_all rs w).engine.store.jobs
        × TracedRequests rs w
        × Evolves w.engine.store.jobs (serve_all rs w).engine.store.jobs
  unfolding serve_all
  requests_follow_lifecycle [] w u = (u, tt, Evolves-refl w.engine.store.jobs)
  requests_follow_lifecycle ((r, t) ∷ rs) w u =
      let (u', first) = serve-Follows r t w u in
      let (u'', later, e) = requests_follow_lifecycle rs (serve r t w) u' in
      (u'', (first, later), Evolves-trans (Step-Evolves first) e)
