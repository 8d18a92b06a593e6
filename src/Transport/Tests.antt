-- ===== src/Transport/Tests.antt =====
-- The theorems on the transport at concrete values.
use psychic_funicular.Base.{
  ℕ, ◌*◌, ◌≡◌, ◌↔◌, refl, false, String, Option, none, some, List, [], ◌∷◌, map, if◌then◌else◌,
  str_eq,
}
use psychic_funicular.Time.{nanos}
use psychic_funicular.Strings.{trim_space, fields}
use psychic_funicular.Transport.Shell.{ProvisionSpec, shell_quote, launch_command}
use psychic_funicular.Store.Api.{ok}
use psychic_funicular.Server.Tunnels.{TunnelConfig}
use psychic_funicular.Transport.Dial.{
  SshPackage, load_signer, key_of_fields, parse_host_key, host_key_callback, dial_ssh, serve_once,
}
use psychic_funicular.Transport.HostKeys.{Connected, dial-Connected}
use psychic_funicular.Transport.Reader.{words}
use psychic_funicular.Transport.Launch.{arguments, behind_words, launch_reads_back}
use psychic_funicular.Transport.Scp.{Pipe, Bytes, write_scp, await_control_ack, remote}
use psychic_funicular.Transport.Transfer.{Smooth, sent_in_full, scp_succeeds_iff}
use psychic_funicular.Transport.Tunnel.{run, failures_before}
use psychic_funicular.Transport.Waits.{wait_after, tunnel_waits}

quoted : shell_quote "it's" ≡ "'it'\\''s'"
unfolding shell_quote
quoted = refl

abbrev spec : ProvisionSpec
spec = record {
  local_bin = "agent";
  remote_path = "/tmp/a b";
  server_addr = "127.0.0.1:7600";
  node_name = "it's";
  partition = "gpu";
  extra_args = "  ";
  log_path = "/tmp/a.log";
  pid_path = "/tmp/a.pid";
}

launch_reads_back_example : words (launch_command spec) ≡ some (arguments spec, behind_words spec)
unfolding trim_space
launch_reads_back_example = launch_reads_back spec refl

abbrev pipe : Pipe
pipe = record { control_fault = none; data_fault = none; end_fault = none }

abbrev agreed : Bytes
agreed = 0 ∷ 0 ∷ 0 ∷ []

-- The remote side refuses the control line.
refused :
    (write_scp pipe (0 ∷ 1 ∷ 110 ∷ 111 ∷ 10 ∷ []) (7 ∷ []) 1 "agent").0
    ≡ some (await_control_ack (remote (110 ∷ 111 ∷ [])))
unfolding write_scp
refused = refl

scp_succeeds_iff_example :
    (((write_scp pipe agreed (7 ∷ []) 1 "agent").0 ≡ none) ↔ Smooth pipe agreed)
    × ((write_scp pipe agreed (7 ∷ []) 1 "agent").0 ≡ none
        → (write_scp pipe agreed (7 ∷ []) 1 "agent").1 ≡ sent_in_full (7 ∷ []) 1 "agent")
scp_succeeds_iff_example = scp_succeeds_iff pipe agreed (7 ∷ []) 1 "agent"

abbrev served : List ℕ
served = 1 ∷ 1 ∷ 60 * nanos ∷ 2 ∷ []

tunnel_waits_example : run served ≡ map wait_after (failures_before 0 served)
tunnel_waits_example = tunnel_waits served

waits : run served ≡ nanos ∷ 2 * nanos ∷ nanos ∷ 2 * nanos ∷ []
unfolding run
waits = refl

-- A package whose keys are the texts themselves.
abbrev ssh : SshPackage
ssh = record {
  Signer = String;
  HostKey = String;
  Client = String × Option String;
  Conn = String;
  read_file = λ path. ok "secret";
  parse_private_key = λ content. ok content;
  parse_authorized_key = λ line. if str_eq line "ssh-ed25519 AAAA" then some line else none;
  quote = λ s. s;
  connect = λ addr user signer host_key. ok (addr, host_key);
  listen = λ client addr. ok ("first" ∷ [], "EOF");
}

abbrev tunnel : String → TunnelConfig
tunnel known = record {
  name = "n1";
  addr = "10.0.0.1:22";
  user = "root";
  key_path = "/root/.ssh/id";
  known_host = known;
  remote_listen = "127.0.0.1:7600";
}

-- The line of a file of known hosts, with the name of the host in front.
with_host :
    dial_ssh ssh (tunnel "n1 ssh-ed25519  AAAA") ≡ ok ("10.0.0.1:22", some "ssh-ed25519 AAAA")
unfolding dial_ssh load_signer host_key_callback parse_host_key key_of_fields fields trim_space
with_host = refl

dial-Connected_example :
    Connected ssh (tunnel "n1 ssh-ed25519  AAAA") ("10.0.0.1:22", some "ssh-ed25519 AAAA")
dial-Connected_example =
    dial-Connected ssh (tunnel "n1 ssh-ed25519  AAAA") ("10.0.0.1:22", some "ssh-ed25519 AAAA")
      with_host

served_once :
    serve_once ssh (tunnel "garbage")
    ≡ record { is_ready = false; proxied = []; error = "host key: invalid host key garbage" }
unfolding serve_once dial_ssh load_signer host_key_callback parse_host_key key_of_fields fields
    trim_space
served_once = refl
