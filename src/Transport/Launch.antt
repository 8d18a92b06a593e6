-- ===== src/Transport/Launch.antt =====
-- A shell that is given the command line of an agent starts it with the values of the configuration.
use Prim.Native.String.{◌++◌ as text_append}
use text.Mathlib.TextLemmas.{append_assoc, cons-append, nil-append}
use psychic_funicular.Base.{
  ◌≡◌, refl, ap, ◌∙◌, true, String, some, List, [], ◌∷◌, Bool-cases, inl, inr, str_eq,
  if◌then◌else◌,
}
use psychic_funicular.Format.{concat}
use psychic_funicular.Strings.{trim_space, is_empty}
use psychic_funicular.Transport.Shell.{ProvisionSpec, shell_quote, launch_command}
use psychic_funicular.Transport.Reader.{between, bare, read, words, step, class_of}
use psychic_funicular.Transport.Quoting.{reads_quote, run, resumes, prepend}

abbrev pub arguments : ProvisionSpec → List String
arguments spec =
    "nohup"
    ∷ spec.remote_path
    ∷ "--server"
    ∷ spec.server_addr
    ∷ "--name"
    ∷ spec.node_name
    ∷ (if str_eq spec.partition "" then [] else "--partition" ∷ spec.partition ∷ [])

-- What the shell still has to read when it has the words: its redirections and the file of the process id.
abbrev pub files : ProvisionSpec → String
unfolding shell_quote
files spec =
    concat (shell_quote spec.log_path ∷ " 2>&1 & echo $! > " ∷ shell_quote spec.pid_path ∷ [])

abbrev pub behind_words : ProvisionSpec → String
behind_words spec = text_append "</dev/null >" (files spec)

stops :
    (w t : String)
    → read (bare w) (text_append " </dev/null >" t) ≡ some (w ∷ [], text_append "</dev/null >" t)
unfolding read step class_of
stops w t = rw (cons-append " " "</dev/null >" t, cons-append "<" "/dev/null >" t) refl

-- The words behind the name of the node.
reads_rest :
    (name partition extra : String) (t : String)
    → is_empty (trim_space extra) ≡ true
    → read (bare name) (
        text_append
          (if str_eq partition "" then "" else text_append " --partition " (shell_quote partition))
          (text_append
            (if is_empty (trim_space extra) then "" else text_append " " (trim_space extra))
            (text_append " </dev/null >" t)))
      ≡ some (
        name ∷ (if str_eq partition "" then [] else "--partition" ∷ partition ∷ []),
        text_append "</dev/null >" t,
      )
unfolding run step class_of
reads_rest name partition extra t h = rw h (elim (Bool-cases (str_eq partition "")) [
  | inl e ↦
      rw (e, nil-append (text_append " </dev/null >" t), nil-append (text_append " </dev/null >" t))
        (stops name t)
  | inr e ↦
      rw
        (
          e,
          nil-append (text_append " </dev/null >" t),
          append_assoc " --partition " (shell_quote partition) (text_append " </dev/null >" t),
        )
        (resumes (bare name) " --partition "
            (text_append (shell_quote partition) (text_append " </dev/null >" t))
          ∙ ap (prepend (name ∷ "--partition" ∷ []))
              (reads_quote partition (text_append " </dev/null >" t) ∙ stops partition t))
])

-- The command line from the partition on, and from each quoted value on.
abbrev options : ProvisionSpec → String
options spec =
    text_append
      (if str_eq spec.partition ""
        then ""
        else text_append " --partition " (shell_quote spec.partition))
      (text_append
        (if is_empty (trim_space spec.extra_args)
          then ""
          else text_append " " (trim_space spec.extra_args))
        (text_append " </dev/null >" (files spec)))

abbrev from_name : ProvisionSpec → String
from_name spec = text_append (shell_quote spec.node_name) (options spec)

abbrev from_addr : ProvisionSpec → String
from_addr spec =
    text_append (shell_quote spec.server_addr) (text_append " --name " (from_name spec))

abbrev from_path : ProvisionSpec → String
from_path spec =
    text_append (shell_quote spec.remote_path) (text_append " --server " (from_addr spec))

reads_path :
    (w t : String)
    → read between (text_append (shell_quote w) (text_append " --server " t))
      ≡ prepend (w ∷ "--server" ∷ []) (read between t)
unfolding run step class_of
reads_path w t = reads_quote w (text_append " --server " t) ∙ resumes (bare w) " --server " t

reads_addr :
    (w t : String)
    → read between (text_append (shell_quote w) (text_append " --name " t))
      ≡ prepend (w ∷ "--name" ∷ []) (read between t)
unfolding run step class_of
reads_addr w t = reads_quote w (text_append " --name " t) ∙ resumes (bare w) " --name " t

reads_nohup :
    (t : String) → read between (text_append "nohup " t) ≡ prepend ("nohup" ∷ []) (read between t)
unfolding run step class_of
reads_nohup t = resumes between "nohup " t

-- A shell that is given the command line of an agent, without extra arguments, reads the words `nohup`,
-- the remote path, `--server` and its address, `--name` and the name of the node, and, if there is a
-- partition, `--partition` and its name, whatever characters these values have; then the redirections.
pub launch_reads_back :
    (spec : ProvisionSpec)
    → is_empty (trim_space spec.extra_args) ≡ true
    → words (launch_command spec) ≡ some (arguments spec, behind_words spec)
unfolding words launch_command
launch_reads_back spec h =
    reads_nohup (from_path spec)
    ∙ ap (prepend ("nohup" ∷ [])) (
        reads_path spec.remote_path (from_addr spec)
        ∙ ap (prepend (spec.remote_path ∷ "--server" ∷ [])) (
            reads_addr spec.server_addr (from_name spec)
            ∙ ap (prepend (spec.server_addr ∷ "--name" ∷ [])) (
                reads_quote spec.node_name (options spec)
                ∙ reads_rest spec.node_name spec.partition spec.extra_args (files spec) h)))
