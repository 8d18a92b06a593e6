-- ===== src/Server/Recovery.antt =====
-- diagnose.go: `run`, which diagnoses a node, tells of it and brings its agent back.
use psychic_funicular.Base.{String, Option, none, some, if◌then◌else◌}
use psychic_funicular.Time.{Time}
use psychic_funicular.Store.Api.{Store, Result}
use psychic_funicular.Notify.Engine.{Config, Engine, emit}
use psychic_funicular.Server.Diagnose.{SshNode, diagnosed_event, restarts}
use psychic_funicular.Server.Tunnels.{SshNodeConfig, provision_spec}
use psychic_funicular.Transport.Alive.{Probed, diagnose}
use psychic_funicular.Transport.Provision.{Attempt, ProvisionError, provision}

-- What the event and the choice read of a node.
abbrev pub node_part : SshNodeConfig → SshNode
node_part sn = record { name = sn.name; provision = sn.provision; auto_restart = sn.auto_restart }

module _ (s : Store) (cfg : Config) where
  -- The error of the context and the connection that the diagnosis meets, and the printed time that the
  -- node has been lost; `base` and the attempt are those of `provision`. The result is the engine, and how
  -- the delivery went, if there was one.
  unfoldable pub run_diagnosis :
      (String → String)
      → SshNodeConfig
      → String
      → Option String
      → Result Probed
      → Attempt
      → Time
      → Engine s cfg
      → Option (Option ProvisionError) × Engine s cfg
  unfolding provision_spec diagnose diagnosed_event provision
  run_diagnosis base sn down_text fault client attempt now e =
      let spec = provision_spec sn in
      let diag = diagnose fault client spec.pid_path spec.remote_path in
      (
        if restarts (node_part sn) diag then some (provision base spec attempt) else none,
        emit s cfg (diagnosed_event (node_part sn) down_text diag) now e,
      )
