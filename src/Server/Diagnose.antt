-- ===== src/Server/Diagnose.antt =====
-- diagnose.go and `classify` of internal/transport/diagnose.go. Dialling a node and probing its agent
-- are the argument `probe` of a run; a run is started as a thread of its own.
use psychic_funicular.Base.{
  Bool, true, false, ◌&&◌, ◌||◌, String, Option, none, some, List, [], ◌∷◌, ◌++◌, if◌then◌else◌,
  lookup, insert, delete,
}
use psychic_funicular.Base.Int.{ltb_ℤ}
use psychic_funicular.Time.{Time, Duration, zero_time, is_zero, sub}
use psychic_funicular.Model.{Node, is_drain, Event}
use psychic_funicular.Format.{concat}

pub data DiagCause : Type 0 where
  ssh_down agent_killed other : DiagCause

abbrev pub cause_name : DiagCause → String
cause_name ssh_down = "ssh-down"
cause_name agent_killed = "agent-killed"
cause_name other = "other"

pub record Diagnosis : Type 0 where
  pub cause : DiagCause
  pub detail : String

unfoldable pub classify : Option String → Option String → Bool → Diagnosis
classify (some dial_err) proc_err alive = record {
  cause = ssh_down;
  detail = concat ("SSH 连接失败: " ∷ dial_err ∷ []);
}
classify none (some proc_err) alive = record {
  cause = other;
  detail = concat ("SSH 正常，但无法确认 agent 进程状态: " ∷ proc_err ∷ []);
}
classify none none false = record {
  cause = agent_killed;
  detail = "SSH 正常，但 agent 进程未在运行（可能被杀 / 崩溃 / OOM）";
}
classify none none true = record {
  cause = other;
  detail = "SSH 与 agent 进程均正常，但控制平面仍未收到心跳（疑似隧道或回环异常）";
}

abbrev pub cause_text : DiagCause → String
cause_text ssh_down = "SSH 连接中断"
cause_text agent_killed = "agent 进程被杀"
cause_text other = "其他原因"

-- The fields of config.SSHNodeConfig that the diagnosis reads.
pub record SshNode : Type 0 where
  pub name : String
  pub provision : Bool
  pub auto_restart : Bool

abbrev pub is_ssh_down : DiagCause → Bool
is_ssh_down ssh_down = true
is_ssh_down _ = false

abbrev pub is_agent_killed : DiagCause → Bool
is_agent_killed agent_killed = true
is_agent_killed _ = false

-- The event of a run; `down_text` is the printed time that the node has been lost.
unfoldable pub diagnosed_event : SshNode → String → Diagnosis → Event
diagnosed_event sn down_text diag = record {
  id = "";
  kind = "node.diagnosed";
  severity = if is_ssh_down diag.cause then "critical" else "warning";
  source = sn.name;
  summary = concat (
      "节点 "
      ∷ sn.name
      ∷ " 失联 "
      ∷ down_text
      ∷ "，诊断结论："
      ∷ cause_text diag.cause
      ∷ "（"
      ∷ diag.detail
      ∷ "）"
      ∷ []);
  dedup_key = concat ("node-diagnosed|" ∷ sn.name ∷ "|" ∷ cause_name diag.cause ∷ []);
  labels = ("node", sn.name) ∷ ("cause", cause_name diag.cause) ∷ [];
  time = zero_time;
}

-- Is the agent provisioned anew after the event?
abbrev pub restarts : SshNode → Diagnosis → Bool
restarts sn diag = is_agent_killed diag.cause && (sn.provision && sn.auto_restart)

pub record DiagnosticsConfig : Type 0 where
  pub after_down : Duration
  pub cooldown : Duration

-- `newDiagnoser`: the managed nodes by name, a later one in place of an earlier one.
unfoldable pub managed : List SshNode → List (String × SshNode) → List (String × SshNode)
unfolding insert
managed [] m = m
managed (sn ∷ sns) m = managed sns (insert sn.name sn m)

abbrev pub LastRun : Type 0
LastRun = List (String × Time)

-- A run that the check starts: the node, and how long it has been lost.
abbrev pub Trigger : Type 0
Trigger = SshNode × Duration

-- May no run be started yet, since the last one?
abbrev pub rests : Option Time → Time → Duration → Bool
rests none now cooldown = false
rests (some last) now cooldown = ltb_ℤ (sub now last) cooldown

-- The body of the loop of `check`, after the node has been looked up.
unfoldable pub check_managed :
    DiagnosticsConfig → SshNode → Node → Time → LastRun → List Trigger × LastRun
unfolding lookup insert delete
check_managed cfg sn n now last_run =
    let down_for = sub now n.last_heartbeat in
    if ltb_ℤ down_for cfg.after_down
    then ([], delete n.name last_run)
    else if rests (lookup n.name last_run) now cfg.cooldown
    then ([], last_run)
    else ((sn, down_for) ∷ [], insert n.name now last_run)

unfoldable pub check_node :
    DiagnosticsConfig → List (String × SshNode) → Node → Time → LastRun → List Trigger × LastRun
unfolding check_managed lookup
check_node cfg nodes n now last_run = elim (lookup n.name nodes) [
  | none ↦ ([], last_run)
  | some sn ↦
      if is_drain n.state || is_zero n.last_heartbeat
      then ([], last_run)
      else check_managed cfg sn n now last_run
]

unfoldable pub check :
    DiagnosticsConfig
    → List (String × SshNode)
    → List Node
    → Time
    → LastRun
    → List Trigger × LastRun
unfolding check_node
check cfg nodes [] now last_run = ([], last_run)
check cfg nodes (n ∷ ns) now last_run =
    let (started, last_run') = check_node cfg nodes n now last_run in
    let (more, last_run'') = check cfg nodes ns now last_run' in (started ++ more, last_run'')
