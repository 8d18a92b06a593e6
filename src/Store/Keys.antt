-- ===== src/Store/Keys.antt =====
-- The primary key of the table of jobs.
use mathlib.Core.Option.{some-injective}
use psychic_funicular.Base.{
  ℕ, ◌≤◌, ◌≡◌, refl, Bool, true, false, String, some, List, [], ◌∷◌, ◌++◌, inl, inr, arith,
  if◌then◌else◌, Bool-cases, All, All-map, any, find, sum_of, sum_of-append, str_eq, str_eq_iff, ap,
}
use psychic_funicular.Store.Rows.{JobRow}
use psychic_funicular.Store.Jobs.{has_id, update_where}

abbrev pub count_id : String → List JobRow → ℕ
count_id id rows = sum_of (λ (r : JobRow). if str_eq r.id id then 1 else 0) rows

-- Each id stands in the table once at most.
abbrev pub UniqueJobs : List JobRow → Type 0
UniqueJobs rows = (id : String) → count_id id rows ≤ 1

pub count_id-none :
    (id : String) (rows : List JobRow) → count_id id rows ≡ 0 → All (λ x. has_id id x ≡ false) rows
count_id-none id [] h = tt
count_id-none id (r ∷ rs) h = (ground arith, count_id-none id rs (ground arith))

-- The row that a query by id finds is the only one with that id.
pub same_row :
    (id : String) (rows : List JobRow) (r : JobRow)
    → find (has_id id) rows ≡ some r
    → count_id id rows ≤ 1
    → All (λ x. has_id id x ≡ true → x.state ≡ r.state) rows
same_row id [] r e u = tt
same_row id (x ∷ xs) r e u = elim (Bool-cases (has_id id x)) [
  | inl h ↦ (
    λ _. ap (λ (y : JobRow). y.state) (some-injective _ _ (rw h at e)),
    All-map (λ y n h'. absurd (ground (arith, n, h'))) xs
        (count_id-none id xs (ground (arith, h, u))),
  )
  | inr h ↦
      (λ h'. absurd (ground (arith, h, h')), same_row id xs r (rw h at e) (ground (arith, h, u)))
]

pub count_id-update_where :
    (id : String) (p : JobRow → Bool) (f : JobRow → JobRow) (rows : List JobRow)
    → ((r : JobRow) → (f r).id ≡ r.id)
    → count_id id (update_where p f rows) ≡ count_id id rows
unfolding update_where
count_id-update_where id p f [] h = refl
count_id-update_where id p f (r ∷ rs) h = ground (arith, h r, count_id-update_where id p f rs h)

pub any-false_count :
    (id : String) (rows : List JobRow) → any (has_id id) rows ≡ false → count_id id rows ≡ 0
any-false_count id [] h = refl
any-false_count id (r ∷ rs) h = ground (arith, any-false_count id rs)

pub UniqueJobs-append :
    (rows : List JobRow) (r : JobRow)
    → any (has_id r.id) rows ≡ false
    → UniqueJobs rows
    → UniqueJobs (rows ++ r ∷ [])
UniqueJobs-append rows r fresh u id = ground (
  arith,
  u id,
  str_eq_iff r.id id,
  any-false_count r.id rows fresh,
  sum_of-append (λ (x : JobRow). if str_eq x.id id then 1 else 0) rows (r ∷ []),
)
