-- ===== src/Config.antt =====
-- internal/config/config.go: the configuration of the server and of an agent, from their defaults, a file
-- and the environment. The file is read by package yaml, over the values that are there.
use psychic_funicular.Base.{
  ℕ, ◌*◌, Bool, true, String, none, some, List, [], ◌∷◌, if◌then◌else◌, str_eq,
}
use psychic_funicular.Base.Int.{pos}
use psychic_funicular.Platform.{Platform}
use psychic_funicular.Time.{Duration, nanos}
use psychic_funicular.Format.{concat}
use psychic_funicular.Store.Api.{Result, ok, err}
use psychic_funicular.Server.Tunnels.{SshNodeConfig}
use psychic_funicular.Server.Diagnose.{DiagnosticsConfig}
use psychic_funicular.Notify.Rules.{NotifyRule}

abbrev pub seconds : ℕ → Duration
seconds n = pos (n * nanos)

-- A value of the file, as package yaml decodes it into a text and into a list of texts.
pub record YamlNode : Type 0 where
  pub as_text : Result String
  pub as_texts : Result (List String)

-- `UnmarshalYAML` of StringOrSlice and of Duration.
unfoldable pub string_or_slice : YamlNode → Result (List String)
string_or_slice node = elim node.as_text [ ok one ↦ ok (one ∷ []) | err _ ↦ node.as_texts ]

module _ (p : Platform) where
  unfoldable pub duration_of : YamlNode → Result Duration
  duration_of node = elim node.as_text [
    | err e ↦ err e
    | ok s ↦ elim (p.parse_duration s) [
      | none ↦ err (concat ("invalid duration " ∷ p.quote s ∷ ": " ∷ p.duration_error s ∷ []))
      | some d ↦ ok d
    ]
  ]

  pub record ServerConfig : Type 0 where
    pub listen_grpc : String
    pub store_driver : String
    pub store_dsn : String
    pub metrics_http : String
    pub web_http : String
    pub scheduler_interval : Duration
    pub scheduler_backfill : Bool
    pub scheduler_age_weight : p.Float
    pub jobs_logs_dir : String
    pub heartbeat_timeout : Duration
    pub heartbeat_reap_interval : Duration
    pub ssh_nodes : List SshNodeConfig
    pub diagnostics_enabled : Bool
    pub diagnostics : DiagnosticsConfig
    pub notify_channels : List String
    pub detector_interval : Duration
    pub disk_threshold : p.Float
    pub device_idle_util : p.Float
    pub device_idle_duration : Duration
    pub notify_rules : List NotifyRule
    pub log_level : String

  unfoldable pub default_server : ServerConfig
  default_server = record {
    listen_grpc = ":7443";
    store_driver = "sqlite";
    store_dsn = "skipper.db";
    metrics_http = ":9100";
    web_http = ":8080";
    scheduler_interval = seconds 2;
    scheduler_backfill = true;
    scheduler_age_weight = p.float_of (pos 0);
    jobs_logs_dir = "job-logs";
    heartbeat_timeout = seconds 30;
    heartbeat_reap_interval = seconds 10;
    ssh_nodes = [];
    diagnostics_enabled = true;
    diagnostics = record { after_down = seconds 60; cooldown = seconds 120 };
    notify_channels = "log" ∷ [];
    detector_interval = seconds 15;
    disk_threshold = p.literal "0.9";
    device_idle_util = p.literal "0.05";
    device_idle_duration = seconds 1800;
    notify_rules = [];
    log_level = "info";
  }

  -- An environment variable, unless it is empty.
  abbrev pub or_env : (String → String) → String → String → String
  or_env env key value = if str_eq (env key) "" then value else env key

  unfoldable pub server_env : (String → String) → ServerConfig → ServerConfig
  server_env env c = record c {
    listen_grpc = or_env env "SKIPPER_LISTEN_GRPC" c.listen_grpc;
    store_dsn = or_env env "SKIPPER_STORE_DSN" c.store_dsn;
    metrics_http = or_env env "SKIPPER_METRICS_HTTP" c.metrics_http;
    web_http = or_env env "SKIPPER_WEB_HTTP" c.web_http;
    jobs_logs_dir = or_env env "SKIPPER_JOBS_LOGS_DIR" c.jobs_logs_dir;
    log_level = or_env env "SKIPPER_LOG_LEVEL" c.log_level;
  }

  -- A file that is read, over a configuration: an error, if it cannot be read or understood.
  abbrev pub from_file {ℓ} :
      {C : Type ℓ} → (String → Result String) → (String → C → Result C) → String → C → Result C
  from_file read decode path c = if str_eq path "" then ok c else elim (read path) [
    | err e ↦ err (concat ("read config: " ∷ e ∷ []))
    | ok content ↦ elim (decode content c) [
      | err e ↦ err (concat ("parse config: " ∷ e ∷ []))
      | ok d ↦ ok d
    ]
  ]

  abbrev pub then_env {ℓ} : {C : Type ℓ} → (C → C) → Result C → Result C
  then_env f (ok c) = ok (f c)
  then_env f (err e) = err e

  unfoldable pub load_server :
      (String → Result String)
      → (String → ServerConfig → Result ServerConfig)
      → (String → String)
      → String
      → Result ServerConfig
  unfolding default_server server_env
  load_server read decode env path =
      then_env (server_env env) (from_file read decode path default_server)

  pub record AgentConfig : Type 0 where
    pub server_addr : String
    pub node_name : String
    pub node_partition : String
    pub node_labels : List (String × String)
    pub collectors_interval : Duration
    pub jobs_poll_interval : Duration
    pub log_level : String

  unfoldable pub default_agent : AgentConfig
  default_agent = record {
    server_addr = "127.0.0.1:7443";
    node_name = "";
    node_partition = "default";
    node_labels = [];
    collectors_interval = seconds 10;
    jobs_poll_interval = seconds 2;
    log_level = "info";
  }

  unfoldable pub agent_env : (String → String) → AgentConfig → AgentConfig
  agent_env env c = record c {
    server_addr = or_env env "SKIPPER_SERVER_ADDR" c.server_addr;
    node_name = or_env env "SKIPPER_NODE_NAME" c.node_name;
    node_partition = or_env env "SKIPPER_NODE_PARTITION" c.node_partition;
    log_level = or_env env "SKIPPER_LOG_LEVEL" c.log_level;
  }

  unfoldable pub load_agent :
      (String → Result String)
      → (String → AgentConfig → Result AgentConfig)
      → (String → String)
      → String
      → Result AgentConfig
  unfolding default_agent agent_env
  load_agent read decode env path =
      then_env (agent_env env) (from_file read decode path default_agent)
