-- ===== src/Transport/Dial.antt =====
-- ssh.go: `dialSSH` with the check of the key of the host, and `serveOnce`. The file of the private key, the
-- reading of keys and the calls that connect and listen are those of packages os and ssh, which are
-- parameters.
use psychic_funicular.Base.{
  Bool, true, false, String, Option, none, some, List, [], ◌∷◌, if◌then◌else◌,
}
use psychic_funicular.Format.{concat, join}
use psychic_funicular.Strings.{is_empty, trim_space, fields}
use psychic_funicular.Store.Api.{Result, ok, err}
use psychic_funicular.Server.Tunnels.{TunnelConfig}

-- What packages os, fmt and ssh give: the file of a path, private and public keys, the printing of a
-- text with quotes, the connection with a private key that checks the given host key, if there is one, and
-- the connections that a listener accepts, with the error that ends it.
pub record SshPackage : Type 1 where
  pub Signer : Type 0
  pub HostKey : Type 0
  pub Client : Type 0
  pub Conn : Type 0
  pub read_file : String → Result String
  pub parse_private_key : String → Result Signer
  pub parse_authorized_key : String → Option HostKey
  pub quote : String → String
  pub connect : String → String → Signer → Option HostKey → Result Client
  pub listen : Client → String → Result (List Conn × String)

abbrev pub wrapped {ℓ} : {A : Type ℓ} → String → Result A → Result A
wrapped text (ok a) = ok a
wrapped text (err e) = err (concat (text ∷ e ∷ []))

abbrev pub and_then {ℓ κ} : {A : Type ℓ} {B : Type κ} → Result A → (A → Result B) → Result B
and_then (ok a) f = f a
and_then (err e) f = err e

module _ (p : SshPackage) where
  unfoldable pub load_signer : String → Result p.Signer
  load_signer path = elim (p.read_file path) [
    | err e ↦ err e
    | ok content ↦ p.parse_private_key content
  ]

  -- The key of a line without its first field, of three fields at least.
  unfoldable pub key_of_fields : List String → Option p.HostKey
  key_of_fields (host ∷ kind ∷ key ∷ more) = p.parse_authorized_key (join " " (kind ∷ key ∷ more))
  key_of_fields _ = none

  unfoldable pub parse_host_key : String → Result p.HostKey
  unfolding key_of_fields fields
  parse_host_key line = elim (p.parse_authorized_key line) [
    | some pk ↦ ok pk
    | none ↦ elim (key_of_fields (fields line)) [
      | some pk ↦ ok pk
      | none ↦ err (concat ("invalid host key " ∷ p.quote line ∷ []))
    ]
  ]

  -- `none` stands for InsecureIgnoreHostKey, `some` for FixedHostKey.
  unfoldable pub host_key_callback : String → Result (Option p.HostKey)
  unfolding parse_host_key trim_space
  host_key_callback known =
      if is_empty (trim_space known)
      then ok none
      else elim (parse_host_key known) [ err e ↦ err e | ok pk ↦ ok (some pk) ]

  unfoldable pub dial_ssh : TunnelConfig → Result p.Client
  unfolding load_signer host_key_callback
  dial_ssh cfg = and_then (wrapped "load key: " (load_signer cfg.key_path)) (λ signer.
      and_then (wrapped "host key: " (host_key_callback cfg.known_host))
        (λ host_key. wrapped "ssh dial: " (p.connect cfg.addr cfg.user signer host_key)))

  -- One life of a tunnel: whether it is ready, the connections that it hands on, and its error. That the
  -- context or a failed keepalive closes the listener shows in the error that ends its connections.
  pub record Served : Type 0 where
    pub is_ready : Bool
    pub proxied : List p.Conn
    pub error : String

  unfoldable pub serve_once : TunnelConfig → Served
  unfolding dial_ssh
  serve_once cfg = elim (dial_ssh cfg) [
    | err e ↦ record { is_ready = false; proxied = []; error = e }
    | ok client ↦ elim (p.listen client cfg.remote_listen) [
      | err e ↦ record {
        is_ready = false;
        proxied = [];
        error = concat ("remote listen " ∷ cfg.remote_listen ∷ ": " ∷ e ∷ []);
      }
      | ok (conns, e) ↦ record { is_ready = true; proxied = conns; error = e }
    ]
  ]
