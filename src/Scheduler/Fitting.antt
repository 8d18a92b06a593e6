-- ===== src/Scheduler/Fitting.antt =====
-- When a job fits on a node, said without the search of selectFit, and what it means that the search finds
-- no node.
use psychic_funicular.Base.{
  ℕ, ◌+◌, ◌≤◌, ◌<◌, ◌≡◌, refl, Bool, true, ◌||◌, String, Option, none, some, List, [], ◌∷◌, ◌++◌,
  ◌⊎◌, inl, inr, arith, if◌then◌else◌, All, length, length-append, sum_of, str_eq, str_eq_iff,
  str_contains, Bool-cases, Option-cases,
}
use psychic_funicular.Platform.{Platform}
use psychic_funicular.Model.{AllocDevice, Job}
use psychic_funicular.Scheduler.Free.{
  FreeDevice, FreeNode, Fit, further, allot, match_name, pick_loop, pick_devices, has_room,
  try_node, select_fit,
}

module _ (p : Platform) where
  unfoldable pub matching : String → List FreeDevice → ℕ
  matching gpu_type ds =
      sum_of (λ (d : FreeDevice). if match_name p d.name gpu_type then 1 else 0) ds

  -- The loop of `pickDevices` fails exactly when too few devices match.
  pub pick_loop_few :
      (ds : List FreeDevice) (n : ℕ) (gpu_type : String) (out : List AllocDevice)
      → n < 4294967296
      → length out < n
      → pick_loop p ds n gpu_type out ≡ none
      → length out + matching gpu_type ds < n
  unfolding pick_loop matching
  pick_loop_few [] n gpu_type out b h e = omega arith
  pick_loop_few (d ∷ ds) n gpu_type out b h e = ground (
    arith,
    length-append out (allot d ∷ []),
    pick_loop_few ds n gpu_type out,
    pick_loop_few ds n gpu_type (out ++ allot d ∷ []),
  )

  -- A device is of the model that is asked for: none is, or its name contains it in any case of the letters.
  abbrev pub accepts : String → FreeDevice → Bool
  accepts gpu_type d = str_eq gpu_type "" || str_contains (p.to_lower d.name) (p.to_lower gpu_type)

  match_name_lem :
      (gpu_type : String) (d : FreeDevice) → match_name p d.name gpu_type ≡ accepts gpu_type d
  unfolding match_name
  match_name_lem gpu_type d = elim (Bool-cases (str_eq gpu_type "")) [
    | inl e ↦ rw e refl
    | inr e ↦ rw e refl
  ]

  -- How many free devices are of the model.
  abbrev pub suitable : String → List FreeDevice → ℕ
  suitable gpu_type [] = 0
  suitable gpu_type (d ∷ ds) = (if accepts gpu_type d then 1 else 0) + suitable gpu_type ds

  matching_lem :
      (gpu_type : String) (ds : List FreeDevice) → matching gpu_type ds ≡ suitable gpu_type ds
  unfolding matching
  matching_lem gpu_type [] = refl
  matching_lem gpu_type (d ∷ ds) =
      rw (match_name_lem gpu_type d) (omega (arith, matching_lem gpu_type ds))

  -- The job asks for no other partition, and for no more cores, memory and devices of a model than are free.
  pub record Fits (job : Job) (fn : FreeNode) : Type 0 where
    pub partition : (job.partition ≡ "") ⊎ (job.partition ≡ fn.partition)
    pub cpus : job.req_cpus ≤ fn.cpus
    pub mem : job.req_mem_bytes ≤ fn.mem
    pub devices : job.req_gpus ≤ suitable job.gpu_type fn.devices

  Fits-has_room : (job : Job) (fn : FreeNode) → Fits job fn → has_room job fn ≡ true
  unfolding has_room
  Fits-has_room job fn f = elim f.partition [
    | inl e ↦ ground (arith, f.cpus, f.mem, (str_eq_iff job.partition "").1 e)
    | inr e ↦ ground (arith, f.cpus, f.mem, (str_eq_iff job.partition fn.partition).1 e)
  ]

  shut_out :
      (job : Job) (fn : FreeNode)
      → job.req_gpus < 4294967296
      → try_node p job fn ≡ none
      → ¬ Fits job fn
  unfolding try_node pick_devices
  shut_out job fn b e f = ground (
    arith,
    e,
    f.devices,
    Fits-has_room job fn f,
    matching_lem job.gpu_type fn.devices,
    pick_loop_few fn.devices job.req_gpus job.gpu_type [] b,
  )

  further-none : (found : Option Fit) → further found ≡ none → found ≡ none
  further-none none e = refl
  further-none (some f) e = absurd (ground (arith, e))

  -- If the search finds no node, the job fits on none.
  pub select_fit-none :
      (job : Job) (order : List FreeNode)
      → job.req_gpus < 4294967296
      → select_fit p job order ≡ none
      → All (λ fn. ¬ Fits job fn) order
  unfolding select_fit
  select_fit-none job [] b e = tt
  select_fit-none job (fn ∷ rest) b e = elim (Option-cases (try_node p job fn)) [
    | inl t ↦ (
      shut_out job fn b t,
      select_fit-none job rest b (further-none (select_fit p job rest) (rw (t, select_fit) at e)),
    )
    | inr (picked, t) ↦ absurd (ground (arith, rw (t, select_fit) at e))
  ]
