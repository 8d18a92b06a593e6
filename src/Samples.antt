-- ===== src/Samples.antt =====
-- A small cluster on which the definitions run, and a platform over the integers.
use psychic_funicular.Base.{ℕ, none, some, ◌*◌, ◌/◌, Bool, String, List, [], ◌∷◌}
use psychic_funicular.Base.Int.{ℤ, pos, negsuc, pos_part, ◌+ℤ◌, ltb_ℤ, leb_ℤ, eqb_ℤ}
use psychic_funicular.Platform.{Platform}
use psychic_funicular.Strings.Numbers.{parse_uint}
use psychic_funicular.Time.{Time, nanos}
use psychic_funicular.Model.{Device, Node, up, AllocDevice, Job, pending, running}
use psychic_funicular.Scheduler.Plan.{Policy}

abbrev times : ℤ → ℤ → ℤ
times (pos a) (pos b) = pos (a * b)
times a b = pos 0

abbrev whole_minutes : ℤ → ℤ
whole_minutes (pos n) = pos (n / (60 * nanos))
whole_minutes (negsuc n) = negsuc 0

abbrev pub exact : Platform
exact = record {
  Float = ℤ;
  float_of = λ n. n;
  float_add = λ a b. a +ℤ b;
  float_mul = times;
  float_lt = ltb_ℤ;
  float_le = leb_ℤ;
  float_eq = eqb_ℤ;
  minutes = whole_minutes;
  format_whole = λ n. "";
  format_duration = λ n. "";
  to_lower = λ s. s;
  quote = λ s. s;
  to_upper = λ s. s;
  parse_float = λ s. elim (parse_uint s) [ none ↦ none | some n ↦ some (pos n) ];
  float_error = λ s. "invalid syntax";
  parse_duration = λ s. none;
  duration_error = λ s. "invalid duration";
  to_u64 = pos_part;
  whole_seconds = λ d. d;
  float_div = λ a b. a;
  format_tenth = λ n. "";
  format_hundredth = λ n. "";
  format_clock = λ n. "";
  literal = λ s. pos 0;
}

abbrev pub gpu : ℕ → String → Device
gpu i name = record {
  kind = "gpu";
  vendor = "nvidia";
  index = i;
  uuid = "";
  mem_total_bytes = 80;
  name = name;
}

abbrev pub node : String → ℕ → List Device → Node
node id cpus devices = record {
  id = id;
  name = id;
  partition = "gpu";
  state = up;
  addr = "";
  cpus = cpus;
  mem_total_bytes = 64;
  devices = devices;
  labels = [];
  agent_version = "";
  last_heartbeat = pos nanos;
}

abbrev pub job : String → ℕ → ℕ → ℕ → Job
job id cpus gpus wall = record {
  id = id;
  name = id;
  owner = "li";
  partition = "gpu";
  state = pending;
  priority = pos 0;
  command = "true";
  env = [];
  workdir = "";
  req_cpus = cpus;
  req_mem_bytes = 1;
  req_gpus = gpus;
  gpu_type = "";
  walltime_sec = pos wall;
  node_id = "";
  node_name = "";
  devices = [];
  exit_code = pos 0;
  reason = "";
  submit_at = pos nanos;
  start_at = pos 0;
  end_at = pos 0;
}

abbrev pub slot : ℕ → AllocDevice
slot i = record { kind = "gpu"; index = i }

abbrev pub on_node : String → List AllocDevice → Job → Job
on_node id devices j = record j {
  state = running;
  node_id = id;
  devices = devices;
  start_at = pos nanos;
}

abbrev pub cluster : List Node
cluster = node "n1" 4 (gpu 0 "a100" ∷ gpu 1 "a100" ∷ []) ∷ node "n2" 8 [] ∷ []

abbrev pub policy : Bool → Policy exact
policy b = record { backfill = b; age_weight = pos 0 }

abbrev pub clock : Time
clock = pos (100 * nanos)

abbrev pub busy : List Job
busy = on_node "n1" (slot 0 ∷ []) (job "r" 2 1 1000) ∷ []

abbrev pub waiting : List Job
waiting = job "big" 4 2 50 ∷ job "one" 2 1 100 ∷ job "cpu" 8 0 2000 ∷ []
