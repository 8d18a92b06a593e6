-- ===== src/Server/Delivery.antt =====
-- The delivery of an agent to a node comes to its end.
use psychic_funicular.Base.{
  ℕ, zero, suc, ◌+◌, ◌*◌, ◌<◌, ◌≡◌, ap, ◌∙◌, true, false, String, none, some, List, arith, length,
  get_elem?, str_eq, if◌then◌else◌,
}
use psychic_funicular.Time.{nanos}
use psychic_funicular.Retry.{retry, backoff_after, retry-wait, retry-returns}
use psychic_funicular.Transport.Tunnel.{doubled}
use psychic_funicular.Transport.Waits.{wait_after, doubled_lem}
use psychic_funicular.Transport.Provision.{Attempt, ProvisionError, provision}
use psychic_funicular.Server.Tunnels.{
  SshNodeConfig, provision_spec, provision_when_ready, tried, skipped, success,
}

backoff_lem : (i n : ℕ) → backoff_after doubled i (wait_after n) ≡ wait_after (i + n)
unfolding backoff_after
backoff_lem zero n = ap wait_after (omega arith)
backoff_lem (suc i) n =
    ap (backoff_after doubled i) (doubled_lem n)
    ∙ backoff_lem i (suc n)
    ∙ ap wait_after (omega arith)

-- If the agent of a node has a binary and the tunnel stands, and the attempt number `k` is the first one
-- without an error, and more attempts than that are made, the delivery ends with the agent delivered,
-- after `k` waits; the wait number `i`, from 0 on, is 2 ^ (i + 1) seconds, and 32 seconds from i = 4 on.
pub delivery_succeeds :
    (base : String → String) (sn : SshNodeConfig) (tries k : ℕ) (attempts : ℕ → Attempt)
    → str_eq sn.agent_bin "" ≡ false
    → k < tries
    → ((i : ℕ)
        → i < k
        → (e : ProvisionError) × (provision base (provision_spec sn) (attempts i) ≡ some e))
    → provision base (provision_spec sn) (attempts k) ≡ none
    → (waits : List ℕ) × (provision_when_ready base true sn tries attempts ≡ tried (waits, some tt))
      × (length waits ≡ k)
      × ((i w : ℕ) → get_elem? waits i ≡ some w → w ≡ wait_after (i + 1))
unfolding provision_when_ready provision_spec
delivery_succeeds base sn tries k attempts h lt failed hit =
    let answers = λ (i : ℕ). success (provision base (provision_spec sn) (attempts i)) in
    let (found, waited) =
      retry-returns doubled tries (2 * nanos) k answers tt lt (λ i l. ap success (failed i l).1)
        (ap success hit) in
    let waits = (retry doubled tries (2 * nanos) answers).0 in
    (
      waits,
      ap (λ b. if b then skipped else tried (retry doubled tries (2 * nanos) answers)) h
          ∙ ap (λ o. tried (waits, o)) found,
      waited,
      λ i w g. retry-wait doubled tries (2 * nanos) w answers i g ∙ backoff_lem i 1,
    )
