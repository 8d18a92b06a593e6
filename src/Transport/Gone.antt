-- ===== src/Transport/Gone.antt =====
-- When a diagnosis brings an agent back.
use mathlib.Core.Path.{subst}
use psychic_funicular.Base.{
  ◌≡◌, refl, ap, ◌∙◌, sym, ◌↔◌, true, false, String, Option, none, some, ◌⊎◌, inl, inr, arith,
  Bool-cases, Option-cases, str_contains,
}
use psychic_funicular.Store.Api.{Result, ok, err}
use psychic_funicular.Server.Diagnose.{SshNode, is_agent_killed, classify, restarts}
use psychic_funicular.Transport.Alive.{Probed, alive_command, agent_alive, diagnose}

-- The probe ran on the node, and its output does not tell of a process.
pub record Silent (pid_path agent_path : String) (c : Probed) : Type 0 where
  pub in_session : c.session_fault ≡ none
  pub out : String
  pub printed : c.output (alive_command pid_path agent_path) ≡ ok out
  pub silent : str_contains out "ALIVE" ≡ false

Result-cases {ℓ} :
    {A : Type ℓ} (r : Result A) → ((a : A) × (r ≡ ok a)) ⊎ ((e : String) × (r ≡ err e))
Result-cases (ok a) = inl (a, refl)
Result-cases (err e) = inr (e, refl)

module _ (pid_path agent_path : String) where
  dead-Silent :
      (c : Probed) → agent_alive c pid_path agent_path ≡ ok false → Silent pid_path agent_path c
  unfolding agent_alive
  dead-Silent c h = elim (Option-cases c.session_fault) [
    | inr (e, f) ↦ absurd (ground (arith, rw (f, agent_alive) at h))
    | inl f ↦ elim (Result-cases (c.output (alive_command pid_path agent_path))) [
      | inr (e, g) ↦ absurd (ground (arith, rw (f, g, agent_alive) at h))
      | inl (out, g) ↦ elim (Bool-cases (str_contains out "ALIVE")) [
        | inl k ↦ absurd (ground (arith, rw (f, g, k, agent_alive) at h))
        | inr k ↦ record { in_session = f; out = out; printed = g; silent = k }
      ]
    ]
  ]

  Silent-is_dead :
      (c : Probed) → Silent pid_path agent_path c → agent_alive c pid_path agent_path ≡ ok false
  unfolding agent_alive
  Silent-is_dead c s = rw (s.in_session, s.printed, s.silent) refl

  killed-Silent :
      (c : Probed)
      → is_agent_killed (diagnose none (ok c) pid_path agent_path).cause ≡ true
      → Silent pid_path agent_path c
  unfolding diagnose classify
  killed-Silent c h = elim (Result-cases (agent_alive c pid_path agent_path)) [
    | inr (e, f) ↦ absurd (ground (arith, rw (f, is_agent_killed, diagnose) at h))
    | inl (alive, f) ↦ elim (Bool-cases alive) [
      | inl g ↦
          absurd
            (ground (arith, rw (g, is_agent_killed) at (rw (f, is_agent_killed, diagnose) at h)))
      | inr g ↦ dead-Silent c (f ∙ ap ok g)
    ]
  ]

  Silent-is_killed :
      (c : Probed)
      → Silent pid_path agent_path c
      → is_agent_killed (diagnose none (ok c) pid_path agent_path).cause ≡ true
  unfolding diagnose classify
  Silent-is_killed c s = rw (Silent-is_dead c s, is_agent_killed, diagnose) refl

  -- The node was reached by a diagnosis that was not cancelled, and the probe told of no process.
  pub record Gone (fault : Option String) (client : Result Probed) : Type 0 where
    pub uncancelled : fault ≡ none
    pub remote : Probed
    pub reached : client ≡ ok remote
    pub probed : Silent pid_path agent_path remote

  killed-Gone :
      (fault : Option String) (client : Result Probed)
      → is_agent_killed (diagnose fault client pid_path agent_path).cause ≡ true
      → Gone fault client
  unfolding diagnose classify
  killed-Gone (some e) client h = absurd (ground (arith, h))
  killed-Gone none (err e) h = absurd (ground (arith, h))
  killed-Gone none (ok c) h = record {
    uncancelled = refl;
    remote = c;
    reached = refl;
    probed = killed-Silent c h;
  }

  Gone-is_killed :
      (fault : Option String) (client : Result Probed)
      → Gone fault client
      → is_agent_killed (diagnose fault client pid_path agent_path).cause ≡ true
  Gone-is_killed fault client g =
      subst (λ f. is_agent_killed (diagnose f client pid_path agent_path).cause ≡ true)
        (sym g.uncancelled)
        (subst (λ r. is_agent_killed (diagnose none r pid_path agent_path).cause ≡ true)
          (sym g.reached) (Silent-is_killed g.remote g.probed))

  -- A diagnosis provisions an agent anew exactly if its node is provisioned and restarted automatically, it
  -- was not cancelled, it reached the node, and the command of the probe ran there and its output does not
  -- hold the word ALIVE.
  pub restarts_iff :
      (sn : SshNode) (fault : Option String) (client : Result Probed)
      → (restarts sn (diagnose fault client pid_path agent_path) ≡ true)
        ↔ ((sn.provision ≡ true) × (sn.auto_restart ≡ true) × Gone fault client)
  restarts_iff sn fault client = (
    λ h. (ground (arith, h), ground (arith, h), killed-Gone fault client (ground (arith, h))),
    λ (a, b, g). rw (Gone-is_killed fault client g, a, b) refl,
  )
