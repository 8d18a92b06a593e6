-- ===== src/Store/Answers.antt =====
-- What the answers of the statements say of the tables.
use mathlib.Core.Path.{subst}
use mathlib.Core.Option.{some-injective}
use psychic_funicular.Base.{
  ◌≡◌, refl, ap, sym, ◌∙◌, ◌⊎◌, Bool, true, false, ◌||◌, String, some, List, [], ◌∷◌, ◌++◌, inl,
  inr, arith, Bool-cases, Option-cases, any, find, str_eq, str_eq_iff,
}
use psychic_funicular.Time.{Time, unix}
use psychic_funicular.Model.{
  Node, JobState, AllocDevice, pending, assigned, running, completed, failed, cancelling, cancelled,
  timeout,
}
use psychic_funicular.Store.Api.{Result, ok, err}
use psychic_funicular.Store.Rows.{JobRow, NodeRow, Db, node_row}
use psychic_funicular.Store.Jobs.{
  has_id, update_where, can_assign, assign_row, assign_job, cancel_state, cancel_row, cancel_job,
}
use psychic_funicular.Store.Operations.{cancel_row-id}
use psychic_funicular.Store.Nodes.{named, has_node_id, upsert_rows, register_node, heartbeat}

none_left :
    (id node_id node_name : String) (devs : List AllocDevice) (rows : List JobRow)
    → any (can_assign id) (update_where (can_assign id) (assign_row node_id node_name devs) rows)
      ≡ false
unfolding update_where
none_left id node_id node_name devs [] = refl
none_left id node_id node_name devs (r ∷ rs) = elim (Bool-cases (can_assign id r)) [
  | inl e ↦ rw e (ground (arith, none_left id node_id node_name devs rs))
  | inr e ↦ rw e (rw e (none_left id node_id node_name devs rs))
]

update_none :
    (p : JobRow → Bool) (f : JobRow → JobRow) (rows : List JobRow)
    → any p rows ≡ false
    → update_where p f rows ≡ rows
unfolding update_where
update_none p f [] h = refl
update_none p f (r ∷ rs) h = elim (Bool-cases (p r)) [
  | inl e ↦ absurd (ground (arith, e, h))
  | inr e ↦ rw e (ap (λ xs. r ∷ xs) (update_none p f rs (ground (arith, e, h))))
]

-- After an assignment of a job, whatever its answer was, another assignment of the same job is refused and
-- leaves the table as it is.
pub assigned_once :
    (id node_id node_name node_id' node_name' : String) (devs devs' : List AllocDevice) (db : Db)
    → let db' = (assign_job id node_id node_name devs db).1 in
      ((assign_job id node_id' node_name' devs' db').0 ≡ err "assign job: not in PENDING state")
      × ((assign_job id node_id' node_name' devs' db').1.jobs ≡ db'.jobs)
unfolding assign_job
assigned_once id node_id node_name node_id' node_name' devs devs' db =
    let gone = none_left id node_id node_name devs db.jobs in
    (rw gone refl, update_none (can_assign id) (assign_row node_id' node_name' devs') _ gone)

find-update_where :
    (id : String) (f : JobRow → JobRow) (rows : List JobRow) (r : JobRow)
    → ((x : JobRow) → (f x).id ≡ x.id)
    → find (has_id id) rows ≡ some r
    → find (has_id id) (update_where (has_id id) f rows) ≡ some (f r)
unfolding update_where
find-update_where id f [] r k h = absurd (ground (arith, h))
find-update_where id f (x ∷ xs) r k h = elim (Bool-cases (has_id id x)) [
  | inl e ↦
      rw (e, ap (λ s. str_eq s id) (k x) ∙ e)
        (ap (λ y. some (f y)) (some-injective _ _ (rw e at h)))
  | inr e ↦ rw e (rw e (find-update_where id f xs r k (rw e at h)))
]

find-other :
    (id k : String) (f : JobRow → JobRow) (rows : List JobRow)
    → ((x : JobRow) → (f x).id ≡ x.id)
    → str_eq id k ≡ false
    → find (has_id k) (update_where (has_id id) f rows) ≡ find (has_id k) rows
unfolding update_where
find-other id k f [] h ne = refl
find-other id k f (x ∷ xs) h ne = elim (Bool-cases (has_id id x)) [
  | inl e ↦
      let other = ap (λ s. str_eq s k) ((str_eq_iff x.id id).0 e) ∙ ne in
      rw (e, ap (λ s. str_eq s k) (h x) ∙ other, other) (find-other id k f xs h ne)
  | inr e ↦ elim (Bool-cases (has_id k x)) [
    | inl g ↦ rw (e, g) refl
    | inr g ↦ rw (e, g) (find-other id k f xs h ne)
  ]
]

-- What a cancellation makes of a row, and the state that it answers.
pub data Cancels (now : Time) (r : JobRow) : JobState → JobRow → Type 0 where
  ended :
      r.state ≡ pending
      → Cancels now r cancelled (record r { state = cancelled; end_at = unix now })
  stopping :
      (r.state ≡ assigned) ⊎ (r.state ≡ running)
      → Cancels now r cancelling (record r { state = cancelling })
  too_late :
      ¬ (r.state ≡ pending)
      → ¬ (r.state ≡ assigned)
      → ¬ (r.state ≡ running)
      → Cancels now r r.state r

Cancels-state : {now : Time} {r r' : JobRow} {s : JobState} → Cancels now r s r' → r'.state ≡ s
Cancels-state (ended h) = refl
Cancels-state (stopping h) = refl
Cancels-state (too_late a b c) = refl

left_alone :
    (s : JobState) (now : Time) (r : JobRow)
    → r.state ≡ s
    → ¬ (s ≡ pending)
    → ¬ (s ≡ assigned)
    → ¬ (s ≡ running)
    → Cancels now r s r
left_alone s now r h a b c =
    subst (λ t. Cancels now r t r) h
      (too_late (λ e. a (sym h ∙ e)) (λ e. b (sym h ∙ e)) (λ e. c (sym h ∙ e)))

cancel_row-Cancels :
    (s : JobState) (now : Time) (r : JobRow)
    → r.state ≡ s
    → Cancels now r (cancel_state s) (cancel_row s now r)
cancel_row-Cancels pending now r h = ended h
cancel_row-Cancels assigned now r h = stopping (inl h)
cancel_row-Cancels running now r h = stopping (inr h)
cancel_row-Cancels completed now r h =
    left_alone completed now r h (λ e. ground (arith, e)) (λ e. ground (arith, e))
      (λ e. ground (arith, e))
cancel_row-Cancels failed now r h =
    left_alone failed now r h (λ e. ground (arith, e)) (λ e. ground (arith, e))
      (λ e. ground (arith, e))
cancel_row-Cancels cancelling now r h =
    left_alone cancelling now r h (λ e. ground (arith, e)) (λ e. ground (arith, e))
      (λ e. ground (arith, e))
cancel_row-Cancels cancelled now r h =
    left_alone cancelled now r h (λ e. ground (arith, e)) (λ e. ground (arith, e))
      (λ e. ground (arith, e))
cancel_row-Cancels timeout now r h =
    left_alone timeout now r h (λ e. ground (arith, e)) (λ e. ground (arith, e))
      (λ e. ground (arith, e))

-- If the job is in the table, CancelJob answers the state in which the row of the job is afterwards. A job
-- that was PENDING is CANCELLED with the time as its end; one that was ASSIGNED or RUNNING is CANCELLING;
-- the rest of these rows, and the row of a job in another state, is as before. The row under any other id
-- is as before, too.
pub cancel_answers :
    (id : String) (now : Time) (db : Db) (r : JobRow)
    → find (has_id id) db.jobs ≡ some r
    → let (answer, db') = cancel_job id now db in
      ((state : JobState) × (r' : JobRow) × (answer ≡ ok state)
        × (find (has_id id) db'.jobs ≡ some r')
        × (r'.state ≡ state)
        × Cancels now r state r')
      × ((k : String) → str_eq id k ≡ false → find (has_id k) db'.jobs ≡ find (has_id k) db.jobs)
unfolding cancel_job
cancel_answers id now db r h =
    let f = cancel_row r.state now in
    (
      (
        cancel_state r.state,
        f r,
        rw (h, cancel_job) refl,
        rw (h, cancel_job) (find-update_where id f db.jobs r (cancel_row-id r.state now) h),
        Cancels-state (cancel_row-Cancels r.state now r refl),
        cancel_row-Cancels r.state now r refl,
      ),
      λ k ne. rw (h, cancel_job) (find-other id k f db.jobs (cancel_row-id r.state now) ne),
    )

any-upsert_rows :
    (id : String) (new : NodeRow) (rows : List NodeRow)
    → any (has_node_id id) (upsert_rows new rows) ≡ any (has_node_id id) rows
unfolding upsert_rows
any-upsert_rows id new [] = refl
any-upsert_rows id new (r ∷ rs) = elim (Bool-cases (named new.name r)) [
  | inl e ↦ rw e refl
  | inr e ↦ rw e (ap (λ b. has_node_id id r || b) (any-upsert_rows id new rs))
]

found_is_listed :
    (name : String) (rows : List NodeRow) (r : NodeRow)
    → find (named name) rows ≡ some r
    → any (has_node_id r.id) rows ≡ true
found_is_listed name [] r h = absurd (ground (arith, h))
found_is_listed name (x ∷ xs) r h = elim (Bool-cases (named name x)) [
  | inl e ↦
      subst (λ y. any (has_node_id y.id) (x ∷ xs) ≡ true) (some-injective _ _ (rw e at h))
        (rw ((str_eq_iff x.id x.id).1 refl) refl)
  | inr e ↦ ground (arith, found_is_listed name xs r (rw e at h))
]

added_is_listed :
    (rows : List NodeRow) (r : NodeRow) → any (has_node_id r.id) (rows ++ r ∷ []) ≡ true
added_is_listed [] r = rw ((str_eq_iff r.id r.id).1 refl) refl
added_is_listed (x ∷ xs) r = ground (arith, added_is_listed xs r)

abbrev id_in : Result String → String
id_in (ok id) = id
id_in (err e) = ""

registered_is_listed :
    (n : Node) (db : Db) (id : String)
    → (register_node n db).0 ≡ ok id
    → any (has_node_id id) (register_node n db).1.nodes ≡ true
unfolding register_node node_row
registered_is_listed n db id h = elim (Option-cases (find (named n.name) db.nodes)) [
  | inl e ↦ elim (Bool-cases (any (has_node_id n.id) db.nodes)) [
    | inl f ↦ absurd (ground (arith, rw f at (rw (e, register_node) at h)))
    | inr f ↦
        subst (λ k. any (has_node_id k) (register_node n db).1.nodes ≡ true)
          (ap id_in (rw f at (rw (e, register_node) at h)))
          (rw (e, register_node) (rw f (added_is_listed db.nodes (node_row n))))
  ]
  | inr (r, e) ↦
      subst (λ k. any (has_node_id k) (register_node n db).1.nodes ≡ true)
        (ap id_in (rw (e, register_node) at h))
        (rw (e, register_node)
          (any-upsert_rows r.id (node_row n) db.nodes ∙ found_is_listed n.name db.nodes r e))
]

-- If RegisterNode answers an id, a heartbeat under that id is found right after it: the agent that has
-- registered is not asked to register again.
pub registered_is_known :
    (n : Node) (db : Db) (id : String) (beat : Node) (t : Time)
    → (register_node n db).0 ≡ ok id
    → beat.id ≡ id
    → (heartbeat beat t (register_node n db).1).0 ≡ ok true
unfolding heartbeat
registered_is_known n db id beat t h b =
    ap ok (
      ap (λ k. any (has_node_id k) (register_node n db).1.nodes) b ∙ registered_is_listed n db id h)
