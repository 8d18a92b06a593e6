-- ===== src/Server/Tunnels.antt =====
-- server.go: the tunnels to the nodes of the configuration, and how their agents are delivered.
use psychic_funicular.Base.{
  ℕ, ◌*◌, ◌||◌, Bool, String, Option, none, some, List, [], ◌∷◌, map, keep, if◌then◌else◌, str_eq,
}
use psychic_funicular.Time.{nanos}
use psychic_funicular.Format.{concat}
use psychic_funicular.Retry.{retry}
use psychic_funicular.Transport.Shell.{ProvisionSpec}
use psychic_funicular.Transport.Tunnel.{doubled}
use psychic_funicular.Transport.Provision.{Attempt, ProvisionError, provision}

-- internal/config/config.go: SSHNodeConfig
pub record SshNodeConfig : Type 0 where
  pub name : String
  pub addr : String
  pub user : String
  pub key : String
  pub known_host : String
  pub remote_listen : String
  pub provision : Bool
  pub agent_bin : String
  pub remote_path : String
  pub partition : String
  pub agent_args : String
  pub auto_restart : Bool

-- internal/transport/ssh.go: Config
pub record TunnelConfig : Type 0 where
  pub name : String
  pub addr : String
  pub user : String
  pub key_path : String
  pub known_host : String
  pub remote_listen : String

abbrev pub or_default : String → String → String
or_default value other = if str_eq value "" then other else value

unfoldable pub ssh_config_for : SshNodeConfig → TunnelConfig
ssh_config_for sn = record {
  name = sn.name;
  addr = sn.addr;
  user = sn.user;
  key_path = sn.key;
  known_host = sn.known_host;
  remote_listen = or_default sn.remote_listen "127.0.0.1:7600";
}

unfoldable pub provision_spec : SshNodeConfig → ProvisionSpec
provision_spec sn =
    let remote_path = or_default sn.remote_path "/tmp/skipper-agent" in
    record {
      local_bin = sn.agent_bin;
      remote_path = remote_path;
      server_addr = or_default sn.remote_listen "127.0.0.1:7600";
      node_name = sn.name;
      partition = sn.partition;
      extra_args = sn.agent_args;
      log_path = concat (remote_path ∷ ".log" ∷ []);
      pid_path = concat (remote_path ∷ ".pid" ∷ []);
    }

-- net.SplitHostPort and net.JoinHostPort are parameters.
unfoldable pub local_dial_target :
    (String → Option (String × String)) → (String → String → String) → String → String
local_dial_target split_host_port join_host_port listen = elim (split_host_port listen) [
  | none ↦ listen
  | some (host, port) ↦
      join_host_port
        (if str_eq host "" || (str_eq host "0.0.0.0" || str_eq host "::")
          then "127.0.0.1"
          else host)
        port
]

-- The tunnels that `startSSHTunnels` runs, and the nodes that it delivers an agent to.
unfoldable pub start_ssh_tunnels : List SshNodeConfig → List TunnelConfig × List SshNodeConfig
unfolding ssh_config_for
start_ssh_tunnels nodes = (map ssh_config_for nodes, keep (λ sn. sn.provision) nodes)

-- How a delivery goes: it is given up at once, it waits for the tunnel, or it makes attempts and waits
-- between them.
pub data Delivery : Type 0 where
  skipped waits_for_tunnel : Delivery
  tried : List ℕ × Option (Unit {0}) → Delivery

abbrev pub success : Option ProvisionError → Option (Unit {0})
success none = some tt
success (some e) = none

-- Of the attempts, `tries` are looked at; `ready` says that the tunnel has stood.
unfoldable pub provision_when_ready :
    (String → String) → Bool → SshNodeConfig → ℕ → (ℕ → Attempt) → Delivery
unfolding provision_spec provision retry doubled
provision_when_ready base ready sn tries attempts =
    let spec = provision_spec sn in
    if str_eq spec.local_bin ""
    then skipped
    else if ready
    then tried (retry doubled tries (2 * nanos) (λ i. success (provision base spec (attempts i))))
    else waits_for_tunnel
