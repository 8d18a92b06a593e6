-- ===== src/Scheduler/Resource.antt =====
-- The three resources of a node that jobs share: processors, memory, and each single device.
use psychic_funicular.Base.{
  ℕ, ◌-◌, ◌≤◌, ◌≡◌, refl, Bool, true, false, not, List, [], ◌∷◌, inl, inr, if◌then◌else◌, arith,
  ◌==◌, keep, sum_of, str_eq_iff, Bool-cases,
}
use psychic_funicular.Model.{AllocDevice}
use psychic_funicular.Scheduler.Free.{FreeDevice, FreeNode, same_key, used_in, take_from}

-- How much of a resource a free node has, how much a job takes, and what is left then.
pub record Resource : Type 0 where
  pub free : FreeNode → ℕ
  pub taken : ℕ → ℕ → List AllocDevice → ℕ
  pub left :
      (cpus mem : ℕ) (devs : List AllocDevice) (fn : FreeNode)
      → free (take_from cpus mem devs fn) ≤ free fn - taken cpus mem devs

pub cpus_left :
    (cpus mem : ℕ) (devs : List AllocDevice) (fn : FreeNode)
    → (take_from cpus mem devs fn).cpus ≤ fn.cpus - cpus
unfolding take_from
cpus_left cpus mem devs fn = ground arith

pub mem_left :
    (cpus mem : ℕ) (devs : List AllocDevice) (fn : FreeNode)
    → (take_from cpus mem devs fn).mem ≤ fn.mem - mem
unfolding take_from
mem_left cpus mem devs fn = ground arith

-- How often a device stands in a list of free, or of allotted, devices.
abbrev pub count_free : AllocDevice → List FreeDevice → ℕ
count_free k devs = sum_of (λ (d : FreeDevice). if same_key d.kind d.index k then 1 else 0) devs

abbrev pub count_held : AllocDevice → List AllocDevice → ℕ
count_held k used = sum_of (λ (u : AllocDevice). if same_key k.kind k.index u then 1 else 0) used

used_in_of_held :
    (k : AllocDevice) (d : FreeDevice) (used : List AllocDevice)
    → same_key d.kind d.index k ≡ true
    → used_in used d ≡ false
    → count_held k used ≡ 0
used_in_of_held k d [] h e = refl
used_in_of_held k d (u ∷ us) h e = ground (
  arith,
  str_eq_iff k.kind d.kind,
  str_eq_iff u.kind d.kind,
  str_eq_iff u.kind k.kind,
  used_in_of_held k d us h,
)

count_free-keep-le :
    (k : AllocDevice) (p : FreeDevice → Bool) (devs : List FreeDevice)
    → count_free k (keep p devs) ≤ count_free k devs
count_free-keep-le k p [] = omega arith
count_free-keep-le k p (d ∷ ds) = ground (arith, count_free-keep-le k p ds)

count_free-keep_held :
    (k : AllocDevice) (used : List AllocDevice) (devs : List FreeDevice)
    → 1 ≤ count_held k used
    → count_free k (keep (λ d. not (used_in used d)) devs) ≡ 0
count_free-keep_held k used [] h = refl
count_free-keep_held k used (d ∷ ds) h = elim (Bool-cases (used_in used d)) [
  | inl e ↦ rw e (count_free-keep_held k used ds h)
  | inr e ↦ elim (Bool-cases (same_key d.kind d.index k)) [
    | inl s ↦ absurd (omega (arith, used_in_of_held k d used s e))
    | inr s ↦ rw (e, s) (omega (arith, count_free-keep_held k used ds h))
  ]
]

pub device_left :
    (k : AllocDevice) (cpus mem : ℕ) (devs : List AllocDevice) (fn : FreeNode)
    → count_free k (take_from cpus mem devs fn).devices
      ≤ count_free k fn.devices - count_held k devs
unfolding take_from
device_left k cpus mem devs fn = elim (Bool-cases (count_held k devs == 0)) [
  | inl e ↦
      let none_held : count_held k devs ≡ 0 = ground arith in
      omega (arith, none_held, count_free-keep-le k (λ d. not (used_in devs d)) fn.devices)
  | inr e ↦
      let some_held : 1 ≤ count_held k devs = ground arith in
      omega (arith, count_free-keep_held k devs fn.devices some_held)
]

abbrev pub cpu_resource : Resource
cpu_resource = record { free = λ fn. fn.cpus; taken = λ cpus mem devs. cpus; left = cpus_left }

abbrev pub mem_resource : Resource
mem_resource = record { free = λ fn. fn.mem; taken = λ cpus mem devs. mem; left = mem_left }

abbrev pub device_resource : AllocDevice → Resource
device_resource k = record {
  free = λ fn. count_free k fn.devices;
  taken = λ cpus mem devs. count_held k devs;
  left = device_left k;
}
