-- ===== src/Server/Recovered.antt =====
-- When the run of a diagnosis brings an agent back.
use mathlib.Core.Option.{some-injective}
use psychic_funicular.Base.{
  ◌≡◌, refl, sym, ◌↔◌, Bool, true, false, String, Option, none, some, arith, if◌then◌else◌,
}
use psychic_funicular.Time.{Time}
use psychic_funicular.Store.Api.{Store, Result}
use psychic_funicular.Notify.Engine.{Config, Engine}
use psychic_funicular.Server.Tunnels.{SshNodeConfig, provision_spec}
use psychic_funicular.Server.Recovery.{node_part, run_diagnosis}
use psychic_funicular.Transport.Alive.{Probed}
use psychic_funicular.Transport.Gone.{Gone, restarts_iff}
use psychic_funicular.Transport.Provision.{Attempt, ProvisionError, provision}

chosen {ℓ} :
    {A : Type ℓ} (b : Bool) (x y : A) → (if b then some x else none) ≡ some y → (b ≡ true) × (x ≡ y)
chosen true x y h = (refl, some-injective x y h)
chosen false x y h = absurd (ground (arith, h))

-- The run of a diagnosis delivers the agent of a node anew exactly if the node is one whose agent is
-- provisioned and restarted automatically, the diagnosis was not cancelled and reached the node, and the
-- command of the probe, for the paths of this agent, ran there and its output does not hold the word ALIVE.
-- A delivery that is made is one attempt of `Provision`, for the agent of this node.
pub recovers_iff :
    (s : Store) (cfg : Config) (base : String → String) (sn : SshNodeConfig) (down_text : String)
    (fault : Option String) (client : Result Probed) (attempt : Attempt) (now : Time)
    (e : Engine s cfg)
    → let spec = provision_spec sn in
      let delivered = (run_diagnosis s cfg base sn down_text fault client attempt now e).0 in
      ((delivered ≡ some (provision base spec attempt)) ↔ (
        (sn.provision ≡ true)
        × (sn.auto_restart ≡ true)
        × Gone spec.pid_path spec.remote_path fault client))
      × ((outcome : Option ProvisionError)
          → delivered ≡ some outcome
          → outcome ≡ provision base spec attempt)
unfolding run_diagnosis
recovers_iff s cfg base sn down_text fault client attempt now e =
    let spec = provision_spec sn in
    let iff = restarts_iff spec.pid_path spec.remote_path (node_part sn) fault client in
    ((λ d. iff.0 (chosen _ _ _ d).0, λ g. rw (iff.1 g) refl), λ outcome d. sym (chosen _ _ _ d).1)
