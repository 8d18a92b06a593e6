-- ===== src/Transport/Provision.antt =====
-- provision.go: `uploadSCP` and `Provision`, on what one attempt meets on its way. The calls of package
-- ssh and of the system are given by their errors.
use psychic_funicular.Base.{ℕ, Bool, String, Option, none, some, if◌then◌else◌, str_eq}
use psychic_funicular.Transport.Shell.{ProvisionSpec, launch_command}
use psychic_funicular.Transport.Scp.{Bytes, Pipe, ScpError, write_scp}

pub data UploadError : Type 0 where
  open_file stat_file new_session stdin_pipe stdout_pipe start : String → UploadError
  protocol : ScpError → UploadError
  timed_out : UploadError

pub data ProvisionError : Type 0 where
  no_agent_bin : ProvisionError
  cancelled dial launch : String → ProvisionError
  upload : UploadError → ProvisionError

-- The errors of the calls of an upload in their order, the file, and the answers of the remote side;
-- `late` says that the upload takes longer than `scpTimeout`.
pub record Remote : Type 0 where
  pub open_fault : Option String
  pub stat_fault : Option String
  pub session_fault : Option String
  pub stdin_fault : Option String
  pub stdout_fault : Option String
  pub start_fault : Option String
  pub content : Bytes
  pub size : ℕ
  pub pipe : Pipe
  pub answers : Bytes
  pub late : Bool

-- An error of a call ends the function; without one it goes on.
abbrev pub or_fail {ℓ} : {E : Type ℓ} → Option String → (String → E) → Option E → Option E
or_fail none wrap next = next
or_fail (some e) wrap next = some (wrap e)

abbrev pub fails_with {ℓ κ} : {E : Type ℓ} {F : Type κ} → (E → F) → Option E → Option F
fails_with wrap none = none
fails_with wrap (some e) = some (wrap e)

-- `base` is filepath.Base of the remote path.
unfoldable pub upload_scp : Remote → String → Option UploadError
unfolding write_scp
upload_scp r base = or_fail r.open_fault open_file (
    or_fail r.stat_fault stat_file (
      or_fail r.session_fault new_session (
        or_fail r.stdin_fault stdin_pipe (
          or_fail r.stdout_fault stdout_pipe (
            or_fail r.start_fault start (
              if r.late
              then some timed_out
              else fails_with protocol (write_scp r.pipe r.answers r.content r.size base).0))))))

-- What an attempt meets besides: the context that has ended, and the errors of the connection and of the
-- command that it is given to run.
pub record Attempt : Type 0 where
  pub context_fault : Option String
  pub dial_fault : Option String
  pub remote : Remote
  pub run_fault : String → Option String

-- Go evaluates from the top: what stands behind an error is not run.
abbrev and_then {ℓ} : {E : Type ℓ} → Option E → Option E → Option E
and_then none next = next
and_then (some e) next = some e

unfoldable pub provision : (String → String) → ProvisionSpec → Attempt → Option ProvisionError
unfolding upload_scp launch_command
provision base spec a =
    if str_eq spec.local_bin ""
    then some no_agent_bin
    else or_fail a.context_fault cancelled (
        or_fail a.dial_fault dial (
          and_then (fails_with upload (upload_scp a.remote (base spec.remote_path)))
            (or_fail (a.run_fault (launch_command spec)) launch none)))
