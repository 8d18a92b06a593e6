-- ===== src/Server/Probe.antt =====
-- Which nodes a check starts a diagnosis for.
use psychic_funicular.Base.{
  ◌≡◌, refl, false, ◌||◌, String, some, List, [], ◌∷◌, inl, inr, arith, Bool-cases, Option-cases,
  All, All-append, All-map, Memᴰ, lookup,
}
use psychic_funicular.Base.Int.{ltb_ℤ}
use psychic_funicular.Time.{Time, is_zero, sub}
use psychic_funicular.Model.{Node, is_drain}
use psychic_funicular.Server.Diagnose.{
  SshNode, DiagnosticsConfig, LastRun, Trigger, rests, check_managed, check_node, check,
}

module _ (cfg : DiagnosticsConfig) (nodes : List (String × SshNode)) (now : Time) where
  -- What a run is started for: a managed node of the list that is not drained and has been heard of, but
  -- not for as long as the configuration says.
  pub record Lost (ns : List Node) (t : Trigger) : Type 0 where
    pub node : Node
    pub listed : Memᴰ node ns
    pub managed : lookup node.name nodes ≡ some t.0
    pub not_drained : is_drain node.state ≡ false
    pub heard : is_zero node.last_heartbeat ≡ false
    pub since : t.1 ≡ sub now node.last_heartbeat
    pub long : ltb_ℤ t.1 cfg.after_down ≡ false

  check_node-Lost :
      (n : Node) (ns : List Node) (last_run : LastRun)
      → All (Lost (n ∷ ns)) (check_node cfg nodes n now last_run).0
  unfolding check_node check_managed
  check_node-Lost n ns last_run = elim (Option-cases (lookup n.name nodes)) [
    | inl e ↦ rw (e, check_node) tt
    | inr (sn, e) ↦ elim (Bool-cases (is_drain n.state || is_zero n.last_heartbeat)) [
      | inl d ↦ rw (e, check_node) (rw d tt)
      | inr d ↦ elim (Bool-cases (ltb_ℤ (sub now n.last_heartbeat) cfg.after_down)) [
        | inl l ↦ rw (e, check_node) (rw (d, l) tt)
        | inr l ↦ elim (Bool-cases (rests (lookup n.name last_run) now cfg.cooldown)) [
          | inl r ↦ rw (e, check_node) (rw (d, l, r) tt)
          | inr r ↦ rw (e, check_node) (rw (d, l, r) (started sn e d l, tt))
        ]
      ]
    ]
  ]
    where
      started :
          (sn : SshNode)
          → lookup n.name nodes ≡ some sn
          → (is_drain n.state || is_zero n.last_heartbeat) ≡ false
          → ltb_ℤ (sub now n.last_heartbeat) cfg.after_down ≡ false
          → Lost (n ∷ ns) (sn, sub now n.last_heartbeat)
      started sn e d l = record {
        node = n;
        listed = Memᴰ.head refl;
        managed = e;
        not_drained = ground (arith, d);
        heard = ground (arith, d);
        since = refl;
        long = l;
      }

  -- Every diagnosis that a check starts is for a node of the list that is managed by SSH, is not drained
  -- and has been heard of, and it is handed the time since, which is not less than the configured one.
  pub check-Lost :
      (ns : List Node) (last_run : LastRun) → All (Lost ns) (check cfg nodes ns now last_run).0
  unfolding check
  check-Lost [] last_run = tt
  check-Lost (n ∷ ns) last_run =
      All-append (Lost (n ∷ ns)) (check_node cfg nodes n now last_run).0 _
        (check_node-Lost n ns last_run)
        (All-map
          (λ t l. record {
            node = l.node;
            listed = Memᴰ.tail l.listed;
            managed = l.managed;
            not_drained = l.not_drained;
            heard = l.heard;
            since = l.since;
            long = l.long;
          })
          _ (check-Lost ns (check_node cfg nodes n now last_run).1))
