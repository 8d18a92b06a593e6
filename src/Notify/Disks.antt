-- ===== src/Notify/Disks.antt =====
-- The alarms of a disk: one when it fills up, one when it is free again, and none in between.
use mathlib.Core.List.{append-nil, append_assoc}
use psychic_funicular.Base.{
  sym, ap, ◌∙◌, Bool, true, false, not, ◌&&◌, String, Option, none, some, List, [], ◌∷◌, ◌++◌, ◌≡◌,
  refl, inl, inr, if◌then◌else◌, Bool-cases, str_eq, str_eq_iff, insert, delete, lookup-insert,
  lookup-delete, keep,
}
use psychic_funicular.Platform.{Platform}
use psychic_funicular.Model.{Node, Event}
use psychic_funicular.Notify.Watched.{
  DiskStats, DetectorConfig, disk_key, was_full, is_full, full_event, recovered_event,
}
use psychic_funicular.Notify.Detector.{check_disk}

abbrev held : Option Bool → Bool
held (some b) = b
held none = false

module _ (p : Platform) (cfg : DetectorConfig p) where
  -- The events that a series of readings, of any disks of any nodes, adds to those before.
  unfoldable pub readings :
      List (Node × DiskStats p)
      → List (String × Bool) × List Event
      → List (String × Bool) × List Event
  unfolding check_disk
  readings [] w = w
  readings ((n, d) ∷ rs) w = readings rs (check_disk p (λ ev evs. evs ++ ev ∷ []) cfg n d w)

  -- The alarm that a reading calls for, if the disk was full before it or not.
  abbrev pub change : Bool → Node → DiskStats p → List Event
  change full n d =
      if is_full p cfg d && not full
      then full_event p n d ∷ []
      else if not (is_full p cfg d) && full
      then recovered_event p n d ∷ []
      else []

  -- The alarms of one disk: one for each change, whatever the readings of the others.
  abbrev pub alarms : String → Bool → List (Node × DiskStats p) → List Event
  alarms key full [] = []
  alarms key full ((n, d) ∷ rs) =
      if str_eq (disk_key p n d) key
      then change full n d ++ alarms key (is_full p cfg d) rs
      else alarms key full rs

  abbrev pub of_key : String → List Event → List Event
  of_key key evs = keep (λ (ev : Event). str_eq ev.dedup_key key) evs

  check_disk-events :
      (n : Node) (d : DiskStats p) (m : List (String × Bool)) (evs : List Event)
      → (check_disk p (λ ev es. es ++ ev ∷ []) cfg n d (m, evs)).1
        ≡ evs ++ change (was_full p (disk_key p n d) m) n d
  unfolding check_disk
  check_disk-events n d m evs = elim (Bool-cases (is_full p cfg d)) [
    | inl f ↦ elim (Bool-cases (was_full p (disk_key p n d) m)) [
      | inl w ↦ rw (f, w) (sym (append-nil evs))
      | inr w ↦ rw (f, w) refl
    ]
    | inr f ↦ elim (Bool-cases (was_full p (disk_key p n d) m)) [
      | inl w ↦ rw (f, w) refl
      | inr w ↦ rw (f, w) (sym (append-nil evs))
    ]
  ]

  -- What the map holds for a key once a disk has been stored or dropped.
  was_full-insert :
      (key k : String) (m : List (String × Bool))
      → was_full p key (insert k true m) ≡ (if str_eq k key then true else was_full p key m)
  unfolding was_full
  was_full-insert key k m = elim (Bool-cases (str_eq k key)) [
    | inl e ↦ ap held (lookup-insert k key true m) ∙ rw e refl
    | inr e ↦ ap held (lookup-insert k key true m) ∙ rw e refl
  ]

  was_full-delete :
      (key k : String) (m : List (String × Bool))
      → was_full p key (delete k m) ≡ (if str_eq k key then false else was_full p key m)
  unfolding was_full
  was_full-delete key k m = elim (Bool-cases (str_eq k key)) [
    | inl e ↦ ap held (lookup-delete k key m) ∙ rw e refl
    | inr e ↦ ap held (lookup-delete k key m) ∙ rw e refl
  ]

  -- A disk whose state is what the map says leaves the map as it is.
  unchanged :
      (key k : String) (m : List (String × Bool)) (b : Bool)
      → was_full p k m ≡ b
      → was_full p key m ≡ (if str_eq k key then b else was_full p key m)
  unchanged key k m b h = elim (Bool-cases (str_eq k key)) [
    | inl e ↦ rw e (ap (λ i. was_full p i m) (sym ((str_eq_iff k key).0 e)) ∙ h)
    | inr e ↦ rw e refl
  ]

  check_disk-state :
      (key : String) (n : Node) (d : DiskStats p) (m : List (String × Bool)) (evs : List Event)
      → was_full p key (check_disk p (λ ev es. es ++ ev ∷ []) cfg n d (m, evs)).0
        ≡ (if str_eq (disk_key p n d) key then is_full p cfg d else was_full p key m)
  unfolding check_disk was_full
  check_disk-state key n d m evs = elim (Bool-cases (is_full p cfg d)) [
    | inl f ↦ elim (Bool-cases (was_full p (disk_key p n d) m)) [
      | inl w ↦ rw (f, w) (unchanged key (disk_key p n d) m true w)
      | inr w ↦ rw (f, w) (was_full-insert key (disk_key p n d) m)
    ]
    | inr f ↦ elim (Bool-cases (was_full p (disk_key p n d) m)) [
      | inl w ↦ rw (f, w) (was_full-delete key (disk_key p n d) m)
      | inr w ↦ rw (f, w) (unchanged key (disk_key p n d) m false w)
    ]
  ]

  of_key-change :
      (key : String) (full : Bool) (n : Node) (d : DiskStats p)
      → of_key key (change full n d) ≡ (if str_eq (disk_key p n d) key then change full n d else [])
  of_key-change key full n d = elim (Bool-cases (is_full p cfg d && not full)) [
    | inl f ↦ rw f refl
    | inr f ↦ elim (Bool-cases (not (is_full p cfg d) && full)) [
      | inl w ↦ rw (f, w) refl
      | inr w ↦ rw (f, w) (same (str_eq (disk_key p n d) key))
    ]
  ]
    where
      same : (b : Bool) → ◌≡◌ {A = List Event} [] (if b then [] else [])
      same true = refl
      same false = refl

  of_key-append :
      (key : String) (xs ys : List Event) → of_key key (xs ++ ys) ≡ of_key key xs ++ of_key key ys
  of_key-append key [] ys = refl
  of_key-append key (x ∷ xs) ys = elim (Bool-cases (str_eq x.dedup_key key)) [
    | inl e ↦ rw e (ap (λ evs. x ∷ evs) (of_key-append key xs ys))
    | inr e ↦ rw e (of_key-append key xs ys)
  ]

  join_change :
      (key : String) (before was : Bool) (n : Node) (d : DiskStats p)
      (rs : List (Node × DiskStats p)) (evs : List Event)
      → (str_eq (disk_key p n d) key ≡ true → before ≡ was)
      → of_key key (evs ++ change before n d)
          ++ alarms key (if str_eq (disk_key p n d) key then is_full p cfg d else was) rs
        ≡ of_key key evs ++ alarms key was ((n, d) ∷ rs)
  join_change key before was n d rs evs h = elim (Bool-cases (str_eq (disk_key p n d) key)) [
    | inl e ↦
        rw (of_key-append key evs (change before n d), of_key-change key before n d, e, h e)
          (append_assoc (of_key key evs) (change was n d) (alarms key (is_full p cfg d) rs))
    | inr e ↦
        rw (of_key-append key evs (change before n d), of_key-change key before n d, e)
          (ap (λ es. es ++ alarms key was rs) (append-nil (of_key key evs)))
  ]

  -- Over any series of readings, from any map and whatever disks they are of, the events with the key of
  -- a disk are one alarm for each change of that disk: full when a reading is over the threshold
  -- and the one before was not, recovered when it is the other way round, and none in between.
  pub disk_alarms :
      (key : String) (rs : List (Node × DiskStats p)) (m : List (String × Bool)) (evs : List Event)
      → of_key key (readings rs (m, evs)).1 ≡ of_key key evs ++ alarms key (was_full p key m) rs
  unfolding readings
  disk_alarms key [] m evs = sym (append-nil (of_key key evs))
  disk_alarms key ((n, d) ∷ rs) m evs =
      disk_alarms key rs next.0 next.1
      ∙ ap (λ es. of_key key es ++ alarms key (was_full p key next.0) rs)
          (check_disk-events n d m evs)
      ∙ ap (λ b. of_key key (evs ++ change before n d) ++ alarms key b rs)
          (check_disk-state key n d m evs)
      ∙ join_change key before (was_full p key m) n d rs evs
          (λ e. ap (λ k. was_full p k m) ((str_eq_iff (disk_key p n d) key).0 e))
    where
      before : Bool
      before = was_full p (disk_key p n d) m

      next : List (String × Bool) × List Event
      next = check_disk p (λ ev es. es ++ ev ∷ []) cfg n d (m, evs)
