-- ===== src/Server/Logs/Delivered.antt =====
-- A client that follows the log of a job receives all of it.
use psychic_funicular.Base.{
  ℕ, zero, suc, ◌≤◌, ◌≡◌, refl, sym, ap, ◌∙◌, true, false, Option, none, some, List, [], ◌∷◌, ◌++◌,
  arith, length, take, if◌then◌else◌,
}
use mathlib.Core.List.{append_assoc}
use psychic_funicular.Server.Logs.{
  Bytes, skip, buffer, chunks, missing, there, Round, is_over, Ending, finished, follow_loop, drain,
  last_drain, open_log, open_at, sent_first, behind_drain,
}

-- The bytes of the chunks.
abbrev pub joined : List Bytes → Bytes
joined [] = []
joined (c ∷ cs) = c ++ joined cs

joined-append : (cs ds : List Bytes) → joined (cs ++ ds) ≡ joined cs ++ joined ds
joined-append [] ds = refl
joined-append (c ∷ cs) ds =
    ap (λ x. c ++ x) (joined-append cs ds) ∙ sym (append_assoc c (joined cs) (joined ds))

take-skip : {A : Type 0} (n : ℕ) (xs : List A) → take n xs ++ skip n xs ≡ xs
take-skip zero xs = refl
take-skip (suc n) [] = refl
take-skip (suc n) (x ∷ xs) = ap (λ l. x ∷ l) (take-skip n xs)

skip-length : {A : Type 0} (xs ys : List A) → skip (length xs) (xs ++ ys) ≡ ys
skip-length [] ys = refl
skip-length (x ∷ xs) ys = skip-length xs ys

length-skip :
    {A : Type 0} (n : ℕ) (x : A) (xs : List A) → length (skip (suc n) (x ∷ xs)) ≤ length xs
length-skip zero x xs = omega arith
length-skip (suc n) x [] = omega arith
length-skip (suc n) x (y ∷ ys) = omega (arith, length-skip n y ys)

joined-chunks :
    (fuel : ℕ) (bytes : Bytes) → length bytes ≤ fuel → joined (chunks fuel bytes) ≡ bytes
unfolding chunks
joined-chunks zero [] h = refl
joined-chunks zero (b ∷ bytes) h = absurd (omega (arith, h))
joined-chunks (suc fuel) [] h = refl
joined-chunks (suc fuel) (b ∷ bytes) h =
    ap (λ l. take buffer (b ∷ bytes) ++ l)
      (joined-chunks fuel (skip buffer (b ∷ bytes)) (omega (arith, h, length-skip 32767 b bytes)))
    ∙ take-skip buffer (b ∷ bytes)

joined-drain :
    (place : ℕ) (content : Bytes) → joined (drain none place content).0 ≡ skip place content
unfolding drain
joined-drain place content =
    joined-chunks (length (skip place content)) (skip place content) (omega arith)

-- In a round nothing fails and the client stays.
abbrev pub Fine : Round → Type 0
Fine t = (t.fault ≡ none) × (t.later_fault ≡ none) × (t.gone ≡ false)

abbrev pub read_so_far : Option Bytes → Bytes
read_so_far none = []
read_so_far (some bytes) = bytes

abbrev pub place_of : Option Bytes → Option ℕ
place_of none = none
place_of (some bytes) = some (length bytes)

-- What a follower of a log sees, from the bytes that it has read on (none if there was no file yet): in
-- each round nothing fails and the client stays, the file only grows, and it is there in the round in
-- which the job has come to its end; the last argument is the log then.
pub data Sees : Option Bytes → List Round → Bytes → Type 0 where
  no_file :
      {t : Round} {ts : List Round} {final : Bytes}
      → Fine t
      → t.opening ≡ missing
      → is_over t.job ≡ false
      → Sees none ts final
      → Sees none (t ∷ ts) final
  reads :
      {seen : Option Bytes} {t : Round} {ts : List Round} {final : Bytes} (more : Bytes)
      → Fine t
      → t.opening ≡ there
      → t.content ≡ read_so_far seen ++ more
      → is_over t.job ≡ false
      → Sees (some t.content) ts final
      → Sees seen (t ∷ ts) final
  ends :
      {seen : Option Bytes} {t : Round} {ts : List Round} (more last : Bytes)
      → Fine t
      → t.opening ≡ there
      → t.content ≡ read_so_far seen ++ more
      → is_over t.job ≡ true
      → t.later ≡ t.content ++ last
      → Sees seen (t ∷ ts) t.later

abbrev pub Gets : Option Bytes → List Round → Bytes → Type 0
Gets seen ts final =
    ((follow_loop true (place_of seen) ts).1 ≡ finished)
    × (read_so_far seen ++ joined (follow_loop true (place_of seen) ts).0 ≡ final)

-- What a round without a failure sends, and what stands behind it.
round_lem :
    (place : ℕ) (t : Round) (rest : List Bytes × Ending)
    → Fine t
    → behind_drain true t rest (drain none place t.content)
      ≡ sent_first (drain none place t.content).0 (if is_over t.job then last_drain t else rest)
unfolding behind_drain drain
round_lem place t rest f = rw f.2 refl

-- A round without a failure, in which the file is open from a place on.
open_round :
    (seen : Option ℕ) (place : ℕ) (t : Round) (ts : List Round)
    → Fine t
    → open_log seen t.opening ≡ open_at place
    → follow_loop true seen (t ∷ ts)
      ≡ sent_first
          (drain none place t.content).0
          (if is_over t.job then last_drain t else follow_loop true (some (length t.content)) ts)
unfolding follow_loop
open_round seen place t ts f o =
    let rest = follow_loop true (some (length t.content)) ts in
    rw (o, follow_loop)
      (ap (λ e. behind_drain true t rest (drain e place t.content)) f.0 ∙ round_lem place t rest f)

opens_at :
    (seen : Option Bytes) → open_log (place_of seen) there ≡ open_at (length (read_so_far seen))
opens_at none = refl
opens_at (some bytes) = refl

skip_read :
    (seen : Option Bytes) (content more : Bytes)
    → content ≡ read_so_far seen ++ more
    → read_so_far seen ++ joined (drain none (length (read_so_far seen)) content).0 ≡ content
skip_read seen content more c =
    ap (λ x. read_so_far seen ++ x)
      (joined-drain (length (read_so_far seen)) content
        ∙ ap (skip (length (read_so_far seen))) c
        ∙ skip-length (read_so_far seen) more)
    ∙ sym c

-- What was read, what a round sends, and what is sent behind it.
joined_first :
    (old : Bytes) (sent : List Bytes) (content : Bytes) (rest : List Bytes × Ending) (final : Bytes)
    → old ++ joined sent ≡ content
    → content ++ joined rest.0 ≡ final
    → old ++ joined (sent_first sent rest).0 ≡ final
joined_first old sent content rest final h k =
    ap (λ x. old ++ x) (joined-append sent rest.0)
    ∙ sym (append_assoc old (joined sent) (joined rest.0))
    ∙ ap (λ x. x ++ joined rest.0) h
    ∙ k

last_lem :
    (t : Round) (last : Bytes)
    → t.later_fault ≡ none
    → t.later ≡ t.content ++ last
    → ((last_drain t).1 ≡ finished) × (t.content ++ joined (last_drain t).0 ≡ t.later)
unfolding last_drain
last_lem t last f l = rw f (refl, skip_read (some t.content) t.later last l)

Gets-reads :
    (seen : Option Bytes) (t : Round) (ts : List Round) (more final : Bytes)
    → Fine t
    → t.opening ≡ there
    → t.content ≡ read_so_far seen ++ more
    → is_over t.job ≡ false
    → Gets (some t.content) ts final
    → Gets seen (t ∷ ts) final
Gets-reads seen t ts more final f o c h (ended, all) =
    rw
      (
        open_round (place_of seen) (length (read_so_far seen)) t ts f
            (ap (open_log (place_of seen)) o ∙ opens_at seen),
        h,
      )
      (
        ended,
        joined_first (read_so_far seen) (drain none (length (read_so_far seen)) t.content).0
            t.content (follow_loop true (some (length t.content)) ts) final
            (skip_read seen t.content more c) all,
      )

Gets-ends :
    (seen : Option Bytes) (t : Round) (ts : List Round) (more last : Bytes)
    → Fine t
    → t.opening ≡ there
    → t.content ≡ read_so_far seen ++ more
    → is_over t.job ≡ true
    → t.later ≡ t.content ++ last
    → Gets seen (t ∷ ts) t.later
Gets-ends seen t ts more last f o c h l =
    let (ended, all) = last_lem t last f.1 l in
    rw
      (
        open_round (place_of seen) (length (read_so_far seen)) t ts f
            (ap (open_log (place_of seen)) o ∙ opens_at seen),
        h,
      )
      (
        ended,
        joined_first (read_so_far seen) (drain none (length (read_so_far seen)) t.content).0
            t.content (last_drain t) t.later (skip_read seen t.content more c) all,
      )

Gets-no_file :
    (t : Round) (ts : List Round) (final : Bytes)
    → Fine t
    → t.opening ≡ missing
    → is_over t.job ≡ false
    → Gets none ts final
    → Gets none (t ∷ ts) final
unfolding follow_loop
Gets-no_file t ts final f o h all = rw (o, h, f.2) all

pub Gets-Sees :
    {seen : Option Bytes} {ts : List Round} {final : Bytes}
    → Sees seen ts final
    → Gets seen ts final
Gets-Sees {final = final} (no_file {t} {ts} f o h rest) =
    Gets-no_file t ts final f o h (Gets-Sees rest)
Gets-Sees {seen = seen} {final = final} (reads {t} {ts} more f o c h rest) =
    Gets-reads seen t ts more final f o c h (Gets-Sees rest)
Gets-Sees {seen = seen} (ends {t} {ts} more last f o c h l) =
    Gets-ends seen t ts more last f o c h l
