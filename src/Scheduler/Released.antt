-- ===== src/Scheduler/Released.antt =====
-- The estimate for one node: a node that can hold the job at its full capacity always has a time at
-- which enough of its jobs have ended.
use psychic_funicular.Base.{
  ℕ, ◌+◌, ◌≤◌, ◌<◌, ◌≡◌, refl, Bool, true, false, String, some, List, [], ◌∷◌, inl, inr, arith,
  Bool-cases, sum_of, sum_of-sort, sort,
}
use psychic_funicular.Base.Int.{pos, pos_part, neg_part, +ℤ_parts, -ℤ_parts}
use psychic_funicular.Platform.{Platform}
use psychic_funicular.Time.{Time, before}
use psychic_funicular.Model.{Node, Job}
use psychic_funicular.Scheduler.Capacity.{cpus_held, mem_held}
use psychic_funicular.Scheduler.Reservation.{
  Occupation, Room, fits, occupy, occupy_all, vacate, first_fit, occupations, occupation_of,
  full_room, node_reservation_time, eligible,
}

abbrev cpus_of : List Occupation → ℕ
cpus_of os = sum_of (λ (o : Occupation). o.cpus) os

abbrev mem_of : List Occupation → ℕ
mem_of os = sum_of (λ (o : Occupation). o.mem) os

abbrev matching_of : List Occupation → ℕ
matching_of os = sum_of (λ (o : Occupation). o.matching) os

-- After the occupations have come, what is missing is at most what they hold.
record Within (r s : Room) (os : List Occupation) : Type 0 where
  cpus_le : s.cpus ≤ r.cpus
  mem_le : s.mem ≤ r.mem
  cpus_back : r.cpus ≤ s.cpus + cpus_of os
  mem_back : r.mem ≤ s.mem + mem_of os
  matching_back :
      pos_part r.matching + neg_part s.matching
      ≡ pos_part s.matching + neg_part r.matching + matching_of os

Within-occupy :
    (r s : Room) (o : Occupation) (os : List Occupation)
    → Within (occupy r o) s os
    → Within r s (o ∷ os)
unfolding occupy
Within-occupy r s o os w = ground (arith, w, -ℤ_parts r.matching (pos o.matching))

occupy_all-Within : (r : Room) (os : List Occupation) → Within r (occupy_all r os) os
unfolding occupy_all
occupy_all-Within r [] = omega arith
occupy_all-Within r (o ∷ os) =
    Within-occupy r (occupy_all (occupy r o) os) o os (occupy_all-Within (occupy r o) os)

-- The job fits once all the occupations have left.
record Enough (blocked : Job) (r : Room) (os : List Occupation) : Type 0 where
  cpus_enough : blocked.req_cpus ≤ r.cpus + cpus_of os
  mem_enough : blocked.req_mem_bytes ≤ r.mem + mem_of os
  matching_enough : blocked.req_gpus + neg_part r.matching ≤ pos_part r.matching + matching_of os
  cpus_small : r.cpus + cpus_of os < 4294967296
  mem_small : r.mem + mem_of os < 18446744073709551616

Enough-vacate :
    (blocked : Job) (r : Room) (o : Occupation) (os : List Occupation)
    → Enough blocked r (o ∷ os)
    → Enough blocked (vacate r o) os
unfolding vacate
Enough-vacate blocked r o os h = ground (arith, h, +ℤ_parts r.matching (pos o.matching))

Enough-fits : (blocked : Job) (r : Room) → Enough blocked r [] → fits blocked r ≡ true
unfolding fits
Enough-fits blocked r h = ground (arith, h)

first_fit_found :
    (blocked : Job) (r : Room) (os : List Occupation)
    → fits blocked r ≡ false
    → Enough blocked r os
    → (t : Time) × (first_fit blocked r os ≡ some t)
unfolding first_fit
first_fit_found blocked r [] no_fit h = absurd (ground (arith, Enough-fits blocked r h))
first_fit_found blocked r (o ∷ os) no_fit h = elim (Bool-cases (fits blocked (vacate r o))) [
  | inl e ↦ (o.end, rw e)
  | inr e ↦
      let (t, found) = first_fit_found blocked (vacate r o) os e (Enough-vacate blocked r o os h) in
      (t, rw e found)
]

Enough-sort :
    (lt : Occupation → Occupation → Bool) (blocked : Job) (r : Room) (os : List Occupation)
    → Enough blocked r os
    → Enough blocked r (sort lt os)
Enough-sort lt blocked r os h = ground (
  arith,
  h,
  sum_of-sort lt (λ (o : Occupation). o.cpus) os,
  sum_of-sort lt (λ (o : Occupation). o.mem) os,
  sum_of-sort lt (λ (o : Occupation). o.matching) os,
)

module _ (p : Platform) (now : Time) (blocked : Job) (active : List Job) where
  cpus_of-occupations :
      (n : Node) (gpu_type : String) (jobs : List Job)
      → cpus_of (occupations p now n gpu_type jobs) ≡ cpus_held n.id jobs
  unfolding occupations occupation_of
  cpus_of-occupations n gpu_type [] = refl
  cpus_of-occupations n gpu_type (j ∷ js) = ground (arith, cpus_of-occupations n gpu_type js)

  mem_of-occupations :
      (n : Node) (gpu_type : String) (jobs : List Job)
      → mem_of (occupations p now n gpu_type jobs) ≡ mem_held n.id jobs
  unfolding occupations occupation_of
  mem_of-occupations n gpu_type [] = refl
  mem_of-occupations n gpu_type (j ∷ js) = ground (arith, mem_of-occupations n gpu_type js)

  -- The sums of a node's capacity and of what its active jobs hold stay below the machine's limits.
  pub record NoWrap (n : Node) : Type 0 where
    pub cpus_small : n.cpus + cpus_held n.id active < 4294967296
    pub mem_small : n.mem_total_bytes + mem_held n.id active < 18446744073709551616

  Enough-of_eligible :
      (n : Node) (os : List Occupation) (r : Room)
      → eligible p blocked n ≡ true
      → Within (full_room p n blocked.gpu_type) r os
      → n.cpus + cpus_of os < 4294967296
      → n.mem_total_bytes + mem_of os < 18446744073709551616
      → Enough blocked r os
  unfolding eligible full_room
  Enough-of_eligible n os r e w c m = ground (arith, w)

  pub node_reservation_found :
      (n : Node)
      → eligible p blocked n ≡ true
      → NoWrap n
      → (t : Time) × (node_reservation_time p now blocked n active ≡ some t)
  unfolding node_reservation_time
  node_reservation_found n e small =
      let os = occupations p now n blocked.gpu_type active in
      let full = full_room p n blocked.gpu_type in
      let r = occupy_all full os in
      let enough =
        Enough-of_eligible n os r e (occupy_all-Within full os)
          (omega (arith, small, cpus_of-occupations n blocked.gpu_type active))
          (omega (arith, small, mem_of-occupations n blocked.gpu_type active)) in
      elim (Bool-cases (fits blocked r)) [
        | inl now_fits ↦ (now, rw now_fits)
        | inr no_fit ↦
            let (t, found) =
              first_fit_found blocked r (sort (λ o o'. before o.end o'.end) os) no_fit
                (Enough-sort (λ o o'. before o.end o'.end) blocked r os enough) in
            (t, rw no_fit found)
      ]
