-- ===== src/Agent/Exclusive.antt =====
-- A job runs once at a time on a node, whatever the order of the calls.
use psychic_funicular.Base.{
  ℕ, ◌+◌, ◌≤◌, ◌≡◌, refl, sym, ap, ◌∙◌, true, String, Option, none, some, List, [], ◌∷◌, inl, inr,
  arith, if◌then◌else◌, Bool-cases, Option-cases, sum_of, str_eq, str_eq_iff, str_mem, lookup,
  insert, delete, lookup-insert, lookup-delete,
}
use psychic_funicular.Server.Convert.{Assignment}
use psychic_funicular.Server.Messages.{Poll}
use psychic_funicular.Agent.Executor.{
  RunningJob, Executor, new_job, start, cancel, cancel_job, begin, end, without, start_all,
  cancel_all, handle_poll,
}

pub data Step : Type 0 where
  starts : String → Step
  cancels : String → Step
  begins : String → Step
  polls : Poll → Step
  ends : String → Step

unfoldable pub take_step : Step → Executor → Executor
take_step (starts id) e = start id e
take_step (cancels id) e = cancel id e
take_step (begins id) e = begin id e
take_step (polls resp) e = handle_poll resp e
take_step (ends id) e = end id e

unfoldable pub take_steps : List Step → Executor → Executor
take_steps [] e = e
take_steps (s ∷ ss) e = take_steps ss (take_step s e)

-- How many live runs a job has.
abbrev pub runs : String → Executor → ℕ
runs id e = sum_of (λ s. if str_eq s id then 1 else 0) e.live

abbrev pub entry : Option RunningJob → ℕ
entry none = 0
entry (some rj) = 1

-- A job in the table has one live run, any other has none.
abbrev pub Exclusive : Executor → Type 0
Exclusive e = (id : String) → runs id e ≡ entry (lookup id e.running)

inserted :
    (id k : String) (new : RunningJob) (m : List (String × RunningJob))
    → str_eq id k ≡ true
    → lookup k (insert id new m) ≡ some new
inserted id k new m s = lookup-insert id k new m ∙ rw s refl

present :
    (id k : String) (old new : RunningJob) (e : Executor)
    → lookup id e.running ≡ some old
    → str_eq id k ≡ true
    → entry (lookup k e.running) ≡ entry (lookup k (insert id new e.running))
present id k old new e h s =
    ap (λ j. entry (lookup j e.running)) (sym ((str_eq_iff id k).0 s))
    ∙ ap entry h
    ∙ ap entry (sym (inserted id k new e.running s))

-- An entry that is there is given a new value.
replaced :
    (id : String) (old new : RunningJob) (e : Executor)
    → lookup id e.running ≡ some old
    → Exclusive e
    → Exclusive (record e { running = insert id new e.running })
replaced id old new e h x k = elim (Bool-cases (str_eq id k)) [
  | inl s ↦ x k ∙ present id k old new e h s
  | inr s ↦ x k ∙ ap entry (sym (lookup-insert id k new e.running ∙ rw s refl))
]

started :
    (id : String) (e : Executor)
    → lookup id e.running ≡ none
    → Exclusive e
    → Exclusive (record { running = insert id new_job e.running; live = id ∷ e.live })
started id e h x k = elim (Bool-cases (str_eq id k)) [
  | inl s ↦
      let none_here : entry (lookup k e.running) ≡ 0 =
        ap (λ j. entry (lookup j e.running)) (sym ((str_eq_iff id k).0 s)) ∙ ap entry h in
      rw (lookup-insert id k new_job e.running, s) (omega (arith, x k ∙ none_here))
  | inr s ↦ rw (lookup-insert id k new_job e.running, s) (omega (arith, x k))
]

runs-without :
    (id k : String) (ids : List String)
    → str_mem id ids ≡ true
    → sum_of (λ s. if str_eq s k then 1 else 0) (without id ids) + (if str_eq id k then 1 else 0)
      ≡ sum_of (λ s. if str_eq s k then 1 else 0) ids
runs-without id k [] h = absurd (ground (arith, h))
runs-without id k (s ∷ ss) h = elim (Bool-cases (str_eq s id)) [
  | inl e ↦ rw e (ground (arith, (str_eq_iff s id).0 e))
  | inr e ↦ rw e (ground (arith, runs-without id k ss (rw e at h)))
]

deleted :
    (id k : String) (m : List (String × RunningJob))
    → entry (lookup k (delete id m)) ≡ (if str_eq id k then 0 else entry (lookup k m))
deleted id k m = elim (Bool-cases (str_eq id k)) [
  | inl s ↦ rw (lookup-delete id k m, s) refl
  | inr s ↦ rw (lookup-delete id k m, s) refl
]

ended :
    (id : String) (e : Executor)
    → str_mem id e.live ≡ true
    → Exclusive e
    → Exclusive (record { running = delete id e.running; live = without id e.live })
ended id e h x k = ground (
  arith,
  runs-without id k e.live h,
  x k,
  one_at_most (lookup k e.running),
  deleted id k e.running,
)
  where
    one_at_most : (o : Option RunningJob) → entry o ≤ 1
    one_at_most none = omega arith
    one_at_most (some rj) = omega arith

start-Exclusive : (id : String) (e : Executor) → Exclusive e → Exclusive (start id e)
unfolding start
start-Exclusive id e x = elim (Option-cases (lookup id e.running)) [
  | inl n ↦ rw (n, start) (started id e n x)
  | inr (rj, y) ↦ rw (y, start) x
]

cancel-Exclusive : (id : String) (e : Executor) → Exclusive e → Exclusive (cancel id e)
unfolding cancel
cancel-Exclusive id e x = elim (Option-cases (lookup id e.running)) [
  | inl n ↦ rw (n, cancel) x
  | inr (rj, y) ↦ rw (y, cancel) (replaced id rj (cancel_job rj) e y x)
]

start_all-Exclusive :
    (run : List Assignment) (e : Executor) → Exclusive e → Exclusive (start_all run e)
unfolding start_all
start_all-Exclusive [] e x = x
start_all-Exclusive (a ∷ run) e x =
    start_all-Exclusive run (start a.job_id e) (start-Exclusive a.job_id e x)

cancel_all-Exclusive :
    (ids : List String) (e : Executor) → Exclusive e → Exclusive (cancel_all ids e)
unfolding cancel_all
cancel_all-Exclusive [] e x = x
cancel_all-Exclusive (id ∷ ids) e x =
    cancel_all-Exclusive ids (cancel id e) (cancel-Exclusive id e x)

take_step-Exclusive : (s : Step) (e : Executor) → Exclusive e → Exclusive (take_step s e)
unfolding take_step begin end handle_poll
take_step-Exclusive (starts id) e x = start-Exclusive id e x
take_step-Exclusive (cancels id) e x = cancel-Exclusive id e x
take_step-Exclusive (begins id) e x = elim (Option-cases (lookup id e.running)) [
  | inl n ↦ rw (n, begin) x
  | inr (rj, y) ↦ rw (y, begin) (replaced id rj (record rj { has_cancel = true }) e y x)
]
take_step-Exclusive (polls resp) e x =
    cancel_all-Exclusive resp.cancel_job_ids (start_all resp.run e)
      (start_all-Exclusive resp.run e x)
take_step-Exclusive (ends id) e x = elim (Bool-cases (str_mem id e.live)) [
  | inl m ↦ rw m (ended id e m x)
  | inr m ↦ rw m x
]

-- From a table in which each job has one live run exactly if it stands in the table, every sequence of
-- starts, cancellations, answers to polls, beginnings and ends of runs keeps that so: a job never runs
-- twice at a time.
pub one_run_per_job : (ss : List Step) (e : Executor) → Exclusive e → Exclusive (take_steps ss e)
unfolding take_steps
one_run_per_job [] e x = x
one_run_per_job (s ∷ ss) e x = one_run_per_job ss (take_step s e) (take_step-Exclusive s e x)
