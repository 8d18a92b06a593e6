-- ===== src/Server/Samples.antt =====
-- A server over the database of a small cluster, on which the definitions run.
use psychic_funicular.Base.{[], ◌∷◌, map}
use psychic_funicular.Store.Rows.{JobRow, job_row, node_row}
use psychic_funicular.Store.Sqlite.{sqlite}
use psychic_funicular.Notify.Rules.{default_rules}
use psychic_funicular.Notify.Engine.{Config}
use psychic_funicular.Server.State.{Server}
use psychic_funicular.Samples.{exact, job, cluster}

abbrev pub config : Config
config = record { rules = default_rules; channels = []; notifiers = []; ids = λ n. "id" }

abbrev pub one : JobRow
one = job_row (job "one" 2 1 100)

abbrev pub server : Server exact sqlite config
server = record {
  engine = record {
    store = record {
      nodes = map node_row cluster;
      jobs = one ∷ [];
      events = [];
      notifications = [];
    };
    cooldown = [];
    issued = 0;
  };
  metrics = [];
  logs = [];
}
