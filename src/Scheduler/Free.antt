-- ===== src/Scheduler/Free.antt =====
-- plan.go: the view of the free resources, the choice of a node and of devices.
-- A pointer into the slice of free nodes is an index of the list.
use psychic_funicular.Base.{
  ℕ, zero, suc, ◌-◌, ◌%◌, Bool, true, not, ◌&&◌, ◌||◌, String, Option, none, some, List, [], ◌∷◌,
  ◌++◌, map, length, any, keep, if◌then◌else◌, ltb, ◌==◌, str_eq, str_contains,
}
use psychic_funicular.Platform.{Platform}
use psychic_funicular.Model.{Device, Node, AllocDevice, Job, is_up}

pub record FreeDevice : Type 0 where
  pub kind : String
  pub index : ℕ
  pub name : String

pub record FreeNode : Type 0 where
  pub id : String
  pub name : String
  pub partition : String
  pub cpus : ℕ
  pub mem : ℕ
  pub devices : List FreeDevice

abbrev pub u32 : ℕ → ℕ
u32 n = n % 4294967296

abbrev pub u64 : ℕ → ℕ
u64 n = n % 18446744073709551616

unfoldable pub sub_u32 : ℕ → ℕ → ℕ
sub_u32 a b = if ltb a b then 0 else a - b

unfoldable pub sub_u64 : ℕ → ℕ → ℕ
sub_u64 a b = if ltb a b then 0 else a - b

-- Is the key (kind, index) in the set that the slice of devices gives?
abbrev pub same_key : String → ℕ → AllocDevice → Bool
same_key kind index u = str_eq u.kind kind && (u.index == index)

abbrev pub used_in : List AllocDevice → FreeDevice → Bool
used_in used d = any (same_key d.kind d.index) used

-- With no device in use nothing is filtered out, so the early return needs no case.
unfoldable pub remove_free_devices : List FreeDevice → List AllocDevice → List FreeDevice
remove_free_devices list used = keep (λ d. not (used_in used d)) list

unfoldable pub free_device : Device → FreeDevice
free_device d = record { kind = d.kind; index = d.index; name = d.name }

unfoldable pub free_node : Node → FreeNode
unfolding free_device
free_node n = record {
  id = n.id;
  name = n.name;
  partition = n.partition;
  cpus = n.cpus;
  mem = n.mem_total_bytes;
  devices = map free_device n.devices;
}

-- The map `frees`, by node id: an assignment to a key that is there replaces its value.
unfoldable pub put_free : FreeNode → List FreeNode → List FreeNode
put_free fn [] = fn ∷ []
put_free fn (g ∷ gs) = let rest = put_free fn gs in if str_eq g.id fn.id then fn ∷ gs else g ∷ rest

-- The first loop of `buildFree`: the nodes that are UP.
unfoldable pub collect_free : List FreeNode → List Node → List FreeNode
collect_free frees [] = frees
collect_free frees (n ∷ ns) =
    collect_free (if is_up n.state then put_free (free_node n) frees else frees) ns

-- What a job and its devices take from a node.
unfoldable pub take_from : ℕ → ℕ → List AllocDevice → FreeNode → FreeNode
unfolding sub_u32 sub_u64 remove_free_devices
take_from cpus mem devs fn = record fn {
  cpus = sub_u32 fn.cpus cpus;
  mem = sub_u64 fn.mem mem;
  devices = remove_free_devices fn.devices devs;
}

-- The body of the second loop of `buildFree`: `frees[job.NodeID]` is changed in place.
unfoldable pub charge : Job → List FreeNode → List FreeNode
charge job [] = []
charge job (g ∷ gs) =
    let rest = charge job gs in
    if str_eq g.id job.node_id
    then take_from job.req_cpus job.req_mem_bytes job.devices g ∷ gs
    else g ∷ rest

unfoldable pub charge_all : List FreeNode → List Job → List FreeNode
charge_all frees [] = frees
charge_all frees (job ∷ jobs) = charge_all (charge job frees) jobs

unfoldable pub build_free : List Node → List Job → List FreeNode
build_free nodes active = charge_all (collect_free [] nodes) active

-- Where `selectFit` found room: the pointer, the node behind it, the devices picked.
pub record Fit : Type 0 where
  pub at : ℕ
  pub node : FreeNode
  pub devices : List AllocDevice

abbrev pub further : Option Fit → Option Fit
further none = none
further (some f) = some (record f { at = suc f.at })

abbrev pub allot : FreeDevice → AllocDevice
allot d = record { kind = d.kind; index = d.index }

-- The two tests of `selectFit` before devices are picked.
unfoldable pub has_room : Job → FreeNode → Bool
has_room job fn =
    not (not (str_eq job.partition "") && not (str_eq job.partition fn.partition))
    && not (ltb fn.cpus job.req_cpus || ltb fn.mem job.req_mem_bytes)

module _ (p : Platform) where
  open p use {to_lower}

  unfoldable pub match_name : String → String → Bool
  match_name name gpu_type =
      if str_eq gpu_type "" then true else str_contains (to_lower name) (to_lower gpu_type)

  -- The loop of `pickDevices`, with the slice `out` so far.
  unfoldable pub pick_loop :
      List FreeDevice → ℕ → String → List AllocDevice → Option (List AllocDevice)
  pick_loop [] n gpu_type out = none
  pick_loop (d ∷ ds) n gpu_type out =
      let skipped = pick_loop ds n gpu_type out in
      let out' = out ++ allot d ∷ [] in
      let more = pick_loop ds n gpu_type out' in
      if not (match_name d.name gpu_type)
      then skipped
      else if u32 (length out') == n
      then some out'
      else more

  -- `none` stands for the nil slice.
  unfoldable pub pick_devices : List FreeDevice → ℕ → String → Option (List AllocDevice)
  pick_devices devs n gpu_type = if n == 0 then some [] else pick_loop devs n gpu_type []

  unfoldable pub try_node : Job → FreeNode → Option (List AllocDevice)
  try_node job fn =
      if has_room job fn then pick_devices fn.devices job.req_gpus job.gpu_type else none

  unfoldable pub select_fit : Job → List FreeNode → Option Fit
  select_fit job [] = none
  select_fit job (fn ∷ rest) = elim (try_node job fn) [
    | some picked ↦ some (record { at = 0; node = fn; devices = picked })
    | none ↦ further (select_fit job rest)
  ]

-- `consume`, through the pointer.
unfoldable pub consume : ℕ → Job → List AllocDevice → List FreeNode → List FreeNode
consume at job devs [] = []
consume zero job devs (fn ∷ rest) = take_from job.req_cpus job.req_mem_bytes devs fn ∷ rest
consume (suc at) job devs (fn ∷ rest) = fn ∷ consume at job devs rest
