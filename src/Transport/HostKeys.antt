-- ===== src/Transport/HostKeys.antt =====
-- The connections of a tunnel are made with the key of the host.
use mathlib.Core.Path.{subst}
use psychic_funicular.Base.{
  ◌≡◌, refl, ap, true, false, String, Option, none, some, inl, inr, Bool-cases, Option-cases, arith,
}
use psychic_funicular.Strings.{is_empty, trim_space, fields}
use psychic_funicular.Store.Api.{Result, ok, err}
use psychic_funicular.Server.Tunnels.{TunnelConfig}
use psychic_funicular.Transport.Dial.{
  SshPackage, load_signer, key_of_fields, parse_host_key, host_key_callback, wrapped, and_then,
  dial_ssh,
}

abbrev value_or {ℓ} : {A : Type ℓ} → A → Result A → A
value_or a (ok b) = b
value_or a (err e) = a

ok-injective {ℓ} : {A : Type ℓ} (a b : A) → ok a ≡ ok b → a ≡ b
ok-injective a b h = ap (value_or a) h

and_then_ok {ℓ κ} :
    {A : Type ℓ} {B : Type κ} (text : String) (r : Result A) (f : A → Result B) (b : B)
    → and_then (wrapped text r) f ≡ ok b
    → (a : A) × (r ≡ ok a) × (f a ≡ ok b)
and_then_ok text (ok a) f b h = (a, refl, h)
and_then_ok text (err e) f b h = absurd (ground (arith, h))

wrapped_ok {ℓ} :
    {A : Type ℓ} (text : String) (r : Result A) (a : A) → wrapped text r ≡ ok a → r ≡ ok a
wrapped_ok text (ok b) a h = h
wrapped_ok text (err e) a h = absurd (ground (arith, h))

module _ (p : SshPackage) where
  -- The key that a configured text stands for: the whole line is a key, or what follows its first field.
  pub data KeyOf (line : String) : Option p.HostKey → Type 0 where
    unchecked : is_empty (trim_space line) ≡ true → KeyOf line none
    whole :
        (k : p.HostKey)
        → is_empty (trim_space line) ≡ false
        → p.parse_authorized_key line ≡ some k
        → KeyOf line (some k)
    after_host :
        (k : p.HostKey)
        → is_empty (trim_space line) ≡ false
        → p.parse_authorized_key line ≡ none
        → key_of_fields p (fields line) ≡ some k
        → KeyOf line (some k)

  pub record Connected (cfg : TunnelConfig) (c : p.Client) : Type 0 where
    pub signer : p.Signer
    pub host_key : Option p.HostKey
    pub loaded : load_signer p cfg.key_path ≡ ok signer
    pub key : KeyOf cfg.known_host host_key
    pub connected : p.connect cfg.addr cfg.user signer host_key ≡ ok c

  callback-KeyOf :
      (line : String) (k : Option p.HostKey) → host_key_callback p line ≡ ok k → KeyOf line k
  unfolding host_key_callback parse_host_key
  callback-KeyOf line k h = elim (Bool-cases (is_empty (trim_space line))) [
    | inl e ↦ subst (KeyOf line) (ok-injective none k (rw e at h)) (unchecked e)
    | inr e ↦ elim (Option-cases (p.parse_authorized_key line)) [
      | inr (pk, f) ↦
          subst (KeyOf line) (ok-injective (some pk) k (rw f at (rw e at h))) (whole pk e f)
      | inl f ↦ elim (Option-cases (key_of_fields p (fields line))) [
        | inr (pk, g) ↦
            subst (KeyOf line) (ok-injective (some pk) k (rw g at (rw f at (rw e at h))))
              (after_host pk e f g)
        | inl g ↦ absurd (ground (arith, rw g at (rw f at (rw e at h))))
      ]
    ]
  ]

  -- A client that dialSSH returns is a connection to the address of the configuration, as its user and with
  -- the private key of its file. It was made without a check of the host only if the known key is blank:
  -- otherwise it checks the key that the line is, or, if it is none, the key that follows its first field.
  pub dial-Connected : (cfg : TunnelConfig) (c : p.Client) → dial_ssh p cfg ≡ ok c → Connected cfg c
  unfolding dial_ssh
  dial-Connected cfg c h =
      let (signer, loaded, h') = and_then_ok "load key: " (load_signer p cfg.key_path) _ c h in
      let (host_key, called, h'') =
        and_then_ok "host key: " (host_key_callback p cfg.known_host) _ c h' in
      record {
        signer = signer;
        host_key = host_key;
        loaded = loaded;
        key = callback-KeyOf cfg.known_host host_key called;
        connected = wrapped_ok "ssh dial: " _ c h'';
      }
