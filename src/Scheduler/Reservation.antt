-- ===== src/Scheduler/Reservation.antt =====
-- plan.go: the reservation of EASY backfill, by an estimate of when running jobs end.
use psychic_funicular.Base.{
  ℕ, suc, ◌+◌, ◌*◌, Bool, false, not, ◌&&◌, ◌||◌, String, Option, none, some, List, [], ◌∷◌, map,
  keep, find, if◌then◌else◌, ltb, leb, ◌==◌, str_eq, sort,
}
use psychic_funicular.Base.Int.{ℤ, pos, ◌+ℤ◌, ◌-ℤ◌, leb_ℤ}
use psychic_funicular.Platform.{Platform}
use psychic_funicular.Time.{Time, is_zero, before, after, add, seconds, nanos}
use psychic_funicular.Model.{Device, Node, AllocDevice, Job, is_up}
use psychic_funicular.Scheduler.Free.{u32, u64, sub_u32, sub_u64, match_name}

-- Does a bounded job end by the reservation?
unfoldable pub backfill_allowed : Time → Job → Time → Bool
backfill_allowed now job res_time =
    if leb_ℤ job.walltime_sec (pos 0)
    then false
    else not (after (add now (seconds job.walltime_sec)) res_time)

-- 100 * 365 * 24 * time.Hour
abbrev pub far : ℤ
far = pos (3153600000 * nanos)

unfoldable pub est_end : Time → Job → Time
est_end now j =
    if leb_ℤ j.walltime_sec (pos 0)
    then add now far
    else let base = if is_zero j.start_at then now else j.start_at in
      let end = add base (seconds j.walltime_sec) in if before end now then now else end

pub record Occupation : Type 0 where
  pub end : Time
  pub cpus : ℕ
  pub mem : ℕ
  pub matching : ℕ

-- The free resources that the two loops of `nodeReservationTime` keep; `matching` is an int and
-- may fall below zero.
pub record Room : Type 0 where
  pub cpus : ℕ
  pub mem : ℕ
  pub matching : ℤ

unfoldable pub fits : Job → Room → Bool
fits blocked r =
    leb blocked.req_cpus r.cpus
    && leb blocked.req_mem_bytes r.mem
    && leb_ℤ (pos blocked.req_gpus) r.matching

unfoldable pub occupy : Room → Occupation → Room
unfolding sub_u32 sub_u64
occupy r o = record {
  cpus = sub_u32 r.cpus o.cpus;
  mem = sub_u64 r.mem o.mem;
  matching = r.matching -ℤ pos o.matching;
}

unfoldable pub occupy_all : Room → List Occupation → Room
occupy_all r [] = r
occupy_all r (o ∷ os) = occupy_all (occupy r o) os

-- `+=` on uint32 and uint64 wraps around.
unfoldable pub vacate : Room → Occupation → Room
vacate r o = record {
  cpus = u32 (r.cpus + o.cpus);
  mem = u64 (r.mem + o.mem);
  matching = r.matching +ℤ pos o.matching;
}

-- The last loop: the occupations leave in the order of their ends.
unfoldable pub first_fit : Job → Room → List Occupation → Option Time
first_fit blocked r [] = none
first_fit blocked r (o ∷ os) =
    let later = first_fit blocked (vacate r o) os in
    if fits blocked (vacate r o) then some o.end else later

-- The last device of a node with this key gives the name, as in the map `names`.
unfoldable pub name_of : List Device → AllocDevice → String
name_of [] a = ""
name_of (d ∷ ds) a =
    let later = name_of ds a in
    let is_later = find (λ (e : Device). str_eq e.kind a.kind && (e.index == a.index)) ds in
    elim is_later [
      | some _ ↦ later
      | none ↦ if str_eq d.kind a.kind && (d.index == a.index) then d.name else ""
    ]

abbrev pub earlier : Option Time → Time → Time
earlier none t = t
earlier (some best) t = if before t best then t else best

module _ (p : Platform) where
  unfoldable pub count_matching_devices : List Device → String → ℕ
  unfolding match_name
  count_matching_devices [] gpu_type = 0
  count_matching_devices (d ∷ ds) gpu_type =
      let c = count_matching_devices ds gpu_type in
      if match_name p d.name gpu_type then suc c else c

  unfoldable pub count_named : List Device → List AllocDevice → String → ℕ
  unfolding match_name name_of
  count_named devs [] gpu_type = 0
  count_named devs (a ∷ as') gpu_type =
      let c = count_named devs as' gpu_type in
      if match_name p (name_of devs a) gpu_type then suc c else c

  unfoldable pub count_job_matching : Job → Node → String → ℕ
  count_job_matching j n gpu_type = count_named n.devices j.devices gpu_type

  unfoldable pub occupation_of : Time → Node → String → Job → Occupation
  occupation_of now n gpu_type j = record {
    end = est_end now j;
    cpus = j.req_cpus;
    mem = j.req_mem_bytes;
    matching = count_job_matching j n gpu_type;
  }

  unfoldable pub occupations : Time → Node → String → List Job → List Occupation
  occupations now n gpu_type active =
      map (occupation_of now n gpu_type) (keep (λ (j : Job). str_eq j.node_id n.id) active)

  unfoldable pub full_room : Node → String → Room
  full_room n gpu_type = record {
    cpus = n.cpus;
    mem = n.mem_total_bytes;
    matching = pos (count_matching_devices n.devices gpu_type);
  }

  unfoldable pub node_reservation_time : Time → Job → Node → List Job → Option Time
  node_reservation_time now blocked n active =
      let occs = occupations now n blocked.gpu_type active in
      let room = occupy_all (full_room n blocked.gpu_type) occs in
      if fits blocked room
      then some now
      else first_fit blocked room (sort (λ o o'. before o.end o'.end) occs)

  -- Can the node hold the job at its full capacity?
  unfoldable pub eligible : Job → Node → Bool
  eligible blocked n =
      is_up n.state
      && not (not (str_eq blocked.partition "") && not (str_eq blocked.partition n.partition))
      && not (
          ltb n.cpus blocked.req_cpus
          || ltb n.mem_total_bytes blocked.req_mem_bytes
          || ltb (u32 (count_matching_devices n.devices blocked.gpu_type)) blocked.req_gpus)

  -- The loop of `reservationTime`; `none` stands for `found = false`.
  unfoldable pub reservation_loop : Time → Job → List Job → Option Time → List Node → Option Time
  reservation_loop now blocked active best [] = best
  reservation_loop now blocked active best (n ∷ ns) =
      reservation_loop now blocked active
        (if eligible blocked n
          then elim (node_reservation_time now blocked n active) [
            | none ↦ best
            | some t ↦ some (earlier best t)
          ]
          else best)
        ns

  unfoldable pub reservation_time : Time → Job → List Node → List Job → Option Time
  reservation_time now blocked nodes active = reservation_loop now blocked active none nodes
