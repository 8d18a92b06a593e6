-- ===== src/Store/RoundTrip.antt =====
-- What is written is what is read: the times that the columns keep to the second.
use psychic_funicular.Base.{
  ap, ◌∙◌, ℕ, suc, ◌+◌, ◌*◌, ◌/◌, ◌^◌, ◌<◌, ◌≤◌, ◌≡◌, refl, true, false, String, some, List, [],
  ◌∷◌, ◌++◌, inl, inr, ◌⊎◌, arith, any, find, str_eq_iff,
}
use psychic_funicular.Base.Int.{pos, ◌-ℤ◌, leb_ℤ}
use psychic_funicular.Time.{Time, zero_time, nanos, epoch, is_zero, unix, of_unix}
use psychic_funicular.Model.{Job}
use psychic_funicular.Store.Api.{ok, err}
use psychic_funicular.Store.Rows.{JobRow, job_row, scan_job, unix_of, unix_to_time, Db}
use psychic_funicular.Store.Jobs.{has_id, has_high_bit, create_job, get_job}

-- A time that a column can hold: none, or a whole second after 1970.
abbrev pub Stored : Time → Type 0
Stored t = (t ≡ zero_time) ⊎ ((s : ℕ) × (t ≡ pos ((suc s + epoch) * nanos)))

whole_seconds : (a : ℕ) → a * nanos / nanos ≡ a
whole_seconds a = omega arith

subtract_epoch : (a : ℕ) → pos (a + epoch) -ℤ pos epoch ≡ pos a
unfolding ◌-ℤ◌
subtract_epoch a = ground arith

unix_later : (a : ℕ) → unix (pos ((a + epoch) * nanos)) ≡ pos a
unfolding unix
unix_later a = ap (λ n. pos n -ℤ pos epoch) (whole_seconds (a + epoch)) ∙ subtract_epoch a

not_zero : (a : ℕ) → is_zero (pos ((suc a + epoch) * nanos)) ≡ false
not_zero a = ground arith

unix_of_later : (s : ℕ) → unix_of (pos ((suc s + epoch) * nanos)) ≡ pos (suc s)
unfolding unix_of
unix_of_later s = rw (not_zero s) (unix_later (suc s))

not_negative : (s : ℕ) → leb_ℤ (pos (suc s)) (pos 0) ≡ false
not_negative s = ground arith

of_seconds : (s : ℕ) → unix_to_time (pos (suc s)) ≡ pos ((suc s + epoch) * nanos)
unfolding unix_to_time of_unix
of_seconds s = rw (not_negative s) refl

pub time_kept : (t : Time) → Stored t → unix_to_time (unix_of t) ≡ t
unfolding unix_to_time unix_of
time_kept t (inl e) = rw e refl
time_kept t (inr (s, e)) = rw e (ap unix_to_time (unix_of_later s) ∙ of_seconds s)

-- Each field but the times is a column, and each time is kept.
scan_job-job_row :
    (j : Job) → Stored j.submit_at → Stored j.start_at → Stored j.end_at → scan_job (job_row j) ≡ j
unfolding scan_job job_row
scan_job-job_row j a b c =
    cc (time_kept j.submit_at a, time_kept j.start_at b, time_kept j.end_at c)

low_bits : (n : ℕ) → n < 2 ^ 63 → has_high_bit n ≡ false
low_bits n l = ground (arith, l)

high_bits : (n : ℕ) → 2 ^ 63 ≤ n → has_high_bit n ≡ true
high_bits n g = ground (arith, g)

find-append :
    (id : String) (rows : List JobRow) (r : JobRow)
    → any (has_id id) rows ≡ false
    → has_id id r ≡ true
    → find (has_id id) (rows ++ r ∷ []) ≡ some r
find-append id [] r h k = rw k refl
find-append id (x ∷ xs) r h k = ground (arith, find-append id xs r)

read_back :
    (j : Job) (db : Db)
    → Stored j.submit_at
    → Stored j.start_at
    → Stored j.end_at
    → any (has_id j.id) db.jobs ≡ false
    → get_job j.id (record db { jobs = db.jobs ++ job_row j ∷ [] }) ≡ ok (some j)
unfolding get_job job_row
read_back j db a b c h =
    rw (find-append j.id db.jobs (job_row j) h ((str_eq_iff j.id j.id).1 refl), get_job)
      (ap (λ k. ok (some k)) (scan_job-job_row j a b c))

-- A job with a new id, with a memory size below 2^63 and with times that are whole seconds after 1970, or
-- none, is created, and then read under its id exactly as it was; with a larger memory size the creation
-- fails, and leaves the database as it was.
pub created_job_is_read :
    (j : Job) (db : Db)
    → Stored j.submit_at
    → Stored j.start_at
    → Stored j.end_at
    → any (has_id j.id) db.jobs ≡ false
    → (j.req_mem_bytes < 2 ^ 63
        → ((create_job j db).0 ≡ ok tt) × (get_job j.id (create_job j db).1 ≡ ok (some j)))
      × (2 ^ 63 ≤ j.req_mem_bytes
          → ((e : String) × ((create_job j db).0 ≡ err e)) × ((create_job j db).1 ≡ db))
unfolding create_job get_job
created_job_is_read j db a b c h = (
  λ l. rw (low_bits j.req_mem_bytes l, h) (refl, read_back j db a b c h),
  λ g. rw (high_bits j.req_mem_bytes g) ((_, refl), refl),
)
