-- ===== src/Server/State.antt =====
-- What the handlers share: the store and the engine of events, the snapshots and the logs of the jobs.
use psychic_funicular.Base.{
  suc, String, none, some, List, [], ◌∷◌, ◌||◌, if◌then◌else◌, str_eq, str_contains, lookup, insert,
}
use psychic_funicular.Platform.{Platform}
use psychic_funicular.Store.Api.{Store, Result, ok, err}
use psychic_funicular.Notify.Engine.{Config, Engine}
use psychic_funicular.Notify.Watched.{Metrics}
use psychic_funicular.Format.{concat}

-- The answer of a handler: a message, or a gRPC status with its text.
pub data Reply {ℓ} (A : Type ℓ) : Type ℓ where
  reply : A → Reply A
  invalid_argument : String → Reply A
  not_found : String → Reply A
  internal : String → Reply A

-- internal/server/joblog.go: the files `<dir>/<job id>.log`, by their path.
abbrev pub Logs : Type 0
Logs = List (String × String)

-- filepath.Base keeps a text without separators; the directory is a clean path. Errors of the file system
-- are left out.
unfoldable pub log_path : String → String → Result String
log_path dir job_id =
    if str_eq job_id "" || (str_contains job_id "/" || str_contains job_id "\\")
    then err "invalid job id"
    else ok (concat (dir ∷ "/" ∷ job_id ∷ ".log" ∷ []))

-- Opened for appending, and created if it is not there.
unfoldable pub append_log : String → String → String → Logs → Result (Unit {0}) × Logs
unfolding log_path lookup insert
append_log dir job_id text logs = elim (log_path dir job_id) [
  | err e ↦ (err e, logs)
  | ok path ↦ elim (lookup path logs) [
    | none ↦ (ok tt, insert path text logs)
    | some old ↦ (ok tt, insert path (concat (old ∷ text ∷ [])) logs)
  ]
]

module _ (p : Platform) (s : Store) (cfg : Config) where
  pub record Server : Type 0 where
    pub engine : Engine s cfg
    pub metrics : Metrics p
    pub logs : Logs

  -- `store.NewID`
  abbrev pub new_id : Server → String
  new_id w = cfg.ids w.engine.issued

  abbrev pub issue : Server → Server
  issue w = record w { engine = record w.engine { issued = suc w.engine.issued } }

  abbrev pub set_store : s.State → Server → Server
  set_store st w = record w { engine = record w.engine { store = st } }
