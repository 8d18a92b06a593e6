-- ===== src/Skctl/Commands.antt =====
-- How the arguments of skctl become requests. The flags are given as package flag has read them.
use psychic_funicular.Base.{
  ℕ, suc, ◌-◌, ◌%◌, Bool, ◌||◌, String, Option, none, some, List, [], ◌∷◌, if◌then◌else◌, ltb,
  str_eq, insert,
}
use psychic_funicular.Base.Int.{ℤ, pos, negsuc}
use psychic_funicular.Platform.{Platform}
use psychic_funicular.Format.{concat, join}
use psychic_funicular.Store.Api.{Result, ok, err}
use psychic_funicular.Strings.{is_empty, trim_space, cut}
use psychic_funicular.Server.Cluster.{SubmitRequest}
use psychic_funicular.Web.Sizes.{cli_parse_size}
use psychic_funicular.Skctl.Text.{owner_or_current}

pub data Command : Type 0 where
  nodes top submit queue cancel logs events notifications version : Command
  devices : String → Command

-- The `switch` of `main`.
unfoldable pub command_of : String → Option Command
command_of name =
    if str_eq name "nodes"
    then some nodes
    else if str_eq name "top"
    then some top
    else if str_eq name "gpu"
    then some (devices "gpu")
    else if str_eq name "npu"
    then some (devices "npu")
    else if str_eq name "submit"
    then some submit
    else if str_eq name "queue"
    then some queue
    else if str_eq name "cancel"
    then some cancel
    else if str_eq name "logs"
    then some logs
    else if str_eq name "events"
    then some events
    else if str_eq name "notifications" || str_eq name "notify"
    then some notifications
    else if str_eq name "version"
    then some version
    else none

-- The exit code; `run` gives the error of a command, if it has one.
unfoldable pub exit_code : (Command → List String → Option String) → List String → ℕ
unfolding command_of
exit_code run [] = 2
exit_code run (name ∷ args) = elim (command_of name) [
  | none ↦ 2
  | some command ↦ elim (run command args) [ none ↦ 0 | some e ↦ 1 ]
]

module _ (p : Platform) where
  env_loop : List (String × String) → List String → Result (List (String × String))
  unfolding cut insert
  env_loop m [] = ok m
  env_loop m (item ∷ items) = elim (cut b'=' item) [
    | none ↦ err (concat ("invalid --env " ∷ p.quote item ∷ " (want K=V)" ∷ []))
    | some (k, v) ↦
        let rest = env_loop (insert k v m) items in
        if str_eq k ""
        then err (concat ("invalid --env " ∷ p.quote item ∷ " (want K=V)" ∷ []))
        else rest
  ]

  unfoldable pub parse_env : List String → Result (List (String × String))
  unfolding env_loop
  parse_env items = env_loop [] items

-- int32(n)
abbrev pub signed32 : ℕ → ℤ
signed32 n =
    let r = n % 4294967296 in if ltb r 2147483648 then pos r else negsuc (4294967296 - r - 1)

abbrev pub low32_signed : ℤ → ℤ
low32_signed (pos n) = signed32 n
low32_signed (negsuc n) = signed32 (4294967296 - (suc n % 4294967296))

pub record SubmitFlags : Type 0 where
  pub name : String
  pub partition : String
  pub cpus : ℕ
  pub mem : String
  pub gpus : ℕ
  pub gpu_type : String
  pub time : String
  pub priority : ℤ
  pub workdir : String
  pub owner : String
  pub envs : List String
  pub args : List String

module _ (p : Platform) where
  -- A walltime that the server does not read again: negative ones pass.
  unfoldable pub cli_walltime : String → Result ℤ
  cli_walltime text =
      if str_eq text "0" || str_eq text "" then ok (pos 0) else elim (p.parse_duration text) [
        | none ↦ err (p.duration_error text)
        | some d ↦ ok (p.whole_seconds d)
      ]

  submit_with :
      SubmitFlags
      → String
      → String
      → Result ℕ
      → Result ℤ
      → Result (List (String × String))
      → Result SubmitRequest
  submit_with f command owner (err e) walltime env = err (concat ("invalid --mem: " ∷ e ∷ []))
  submit_with f command owner (ok mem) (err e) env = err (concat ("invalid --time: " ∷ e ∷ []))
  submit_with f command owner (ok mem) (ok walltime) (err e) = err e
  submit_with f command owner (ok mem) (ok walltime) (ok env) = ok (record {
    name = f.name;
    owner = owner;
    partition = f.partition;
    priority = low32_signed f.priority;
    command = command;
    env = env;
    workdir = f.workdir;
    request = some (record {
      cpus = f.cpus % 4294967296;
      mem_bytes = mem;
      gpus = f.gpus % 4294967296;
      gpu_type = f.gpu_type;
      walltime_sec = walltime;
    });
  })

  -- The request of `cmdSubmit`, with the user as the system and the variable USER name him.
  unfoldable pub submit_request : Option String → String → SubmitFlags → Result SubmitRequest
  unfolding submit_with cli_parse_size cli_walltime parse_env owner_or_current trim_space
  submit_request current user f =
      let command = join " " f.args in
      if is_empty (trim_space command)
      then err "missing command (use: submit [flags] -- <command>)"
      else submit_with f command (owner_or_current current user f.owner) (cli_parse_size p f.mem)
          (cli_walltime f.time) (parse_env p f.envs)

  -- The state and the owner that `cmdQueue` asks for.
  unfoldable pub queue_request : Option String → String → String → String → Bool → String × String
  unfolding owner_or_current
  queue_request current user state owner me =
      (p.to_upper state, if me then owner_or_current current user "" else owner)

unfoldable pub cancel_request : List String → Result String
cancel_request [] = err "usage: cancel <jobid>"
cancel_request (id ∷ args) = ok id
