-- ===== src/Transport/Shell.antt =====
-- provision.go: the command line that starts an agent, and its quoting for the shell.
use Prim.Native.String.{◌++◌ as text_append}
use psychic_funicular.Base.{String, [], ◌∷◌, if◌then◌else◌, str_eq}
use psychic_funicular.Format.{concat}
use psychic_funicular.Strings.{is_empty, replace, trim_space}

unfoldable pub shell_quote : String → String
unfolding replace
shell_quote s = concat ("'" ∷ replace 39 "'\\''" s ∷ "'" ∷ [])

pub record ProvisionSpec : Type 0 where
  pub local_bin : String
  pub remote_path : String
  pub server_addr : String
  pub node_name : String
  pub partition : String
  pub extra_args : String
  pub log_path : String
  pub pid_path : String

unfoldable pub launch_command : ProvisionSpec → String
unfolding trim_space shell_quote
launch_command spec = concat (
    "nohup "
    ∷ shell_quote spec.remote_path
    ∷ " --server "
    ∷ shell_quote spec.server_addr
    ∷ " --name "
    ∷ shell_quote spec.node_name
    ∷ (if str_eq spec.partition ""
        then ""
        else text_append " --partition " (shell_quote spec.partition))
    ∷ (if is_empty (trim_space spec.extra_args)
        then ""
        else text_append " " (trim_space spec.extra_args))
    ∷ " </dev/null >"
    ∷ shell_quote spec.log_path
    ∷ " 2>&1 & echo $! > "
    ∷ shell_quote spec.pid_path
    ∷ [])
