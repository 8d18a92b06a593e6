-- ===== src/Store/Lifecycle.antt =====
-- The life of a job in the table: which states follow which, under every sequence of statements.
use psychic_funicular.Base.{
  ℕ, String, ◌∙◌, ◌≡◌, refl, Bool, true, List, [], ◌∷◌, ◌++◌, inl, inr, arith, Bool-cases, All,
  All-of,
}
use psychic_funicular.Base.Int.{ℤ}
use psychic_funicular.Model.{
  JobState, pending, assigned, running, cancelling, cancelled, is_terminal_state,
}
use psychic_funicular.Store.Rows.{JobRow}
use psychic_funicular.Store.Jobs.{in_state, update_where}

infix 40 ◌⟶◌ ◌⟶*◌
pub data ◌⟶◌ : JobState → JobState → Type 0 where
  assign : pending ⟶ assigned
  launch : assigned ⟶ running
  withdraw : pending ⟶ cancelled
  stop_assigned : assigned ⟶ cancelling
  stop_running : running ⟶ cancelling
  report : {s t : JobState} → is_terminal_state t ≡ true → s ⟶ t

pub data ◌⟶*◌ : JobState → JobState → Type 0 where
  here : {s : JobState} → s ⟶* s
  step : {s t u : JobState} → s ⟶ t → t ⟶* u → s ⟶* u

⟶*-trans : {s t u : JobState} → s ⟶* t → t ⟶* u → s ⟶* u
⟶*-trans here k = k
⟶*-trans (step a h) k = step a (⟶*-trans h k)

-- What is submitted with a job: its row without the state, the place, the outcome and the times of its run.
pub record Submission : Type 0 where
  pub id : String
  pub name : String
  pub owner : String
  pub partition : String
  pub priority : ℤ
  pub command : String
  pub env : List (String × String)
  pub workdir : String
  pub req_cpus : ℕ
  pub req_mem_bytes : ℕ
  pub req_gpus : ℕ
  pub gpu_type : String
  pub walltime_sec : ℤ
  pub submit_at : ℤ

abbrev pub submission : JobRow → Submission
submission r = record {
  id = r.id;
  name = r.name;
  owner = r.owner;
  partition = r.partition;
  priority = r.priority;
  command = r.command;
  env = r.env;
  workdir = r.workdir;
  req_cpus = r.req_cpus;
  req_mem_bytes = r.req_mem_bytes;
  req_gpus = r.req_gpus;
  gpu_type = r.gpu_type;
  walltime_sec = r.walltime_sec;
  submit_at = r.submit_at;
}

-- What one statement may do to a row: nothing, or one edge of the diagram.
pub data Moves (r : JobRow) : JobRow → Type 0 where
  stays : Moves r r
  moves : {r' : JobRow} → submission r' ≡ submission r → r.state ⟶ r'.state → Moves r r'

-- What one statement may do to the table: each row moves at its place, and one that is PENDING may be
-- added behind them.
pub data Step : List JobRow → List JobRow → Type 0 where
  unchanged : Step [] []
  fresh : (r : JobRow) → r.state ≡ pending → Step [] (r ∷ [])
  moved :
      {r r' : JobRow} {rs rs' : List JobRow} → Moves r r' → Step rs rs' → Step (r ∷ rs) (r' ∷ rs')

-- What a row may become in the end: all that was submitted stays, the state follows the diagram.
pub record Advances (r r' : JobRow) : Type 0 where
  pub same_submission : submission r' ≡ submission r
  pub path : r.state ⟶* r'.state

-- Each row advances at its place, and rows are added behind.
pub data Evolves : List JobRow → List JobRow → Type 0 where
  added : (rs : List JobRow) → Evolves [] rs
  kept :
      {r r' : JobRow} {rs rs' : List JobRow}
      → Advances r r'
      → Evolves rs rs'
      → Evolves (r ∷ rs) (r' ∷ rs')

Advances-refl : (r : JobRow) → Advances r r
Advances-refl r = record { same_submission = refl; path = here }

Advances-trans : {a b c : JobRow} → Advances a b → Advances b c → Advances a c
Advances-trans h k = record {
  same_submission = k.same_submission ∙ h.same_submission;
  path = ⟶*-trans h.path k.path;
}

pub Evolves-refl : (rs : List JobRow) → Evolves rs rs
Evolves-refl [] = added []
Evolves-refl (r ∷ rs) = kept (Advances-refl r) (Evolves-refl rs)

pub Evolves-trans : {a b c : List JobRow} → Evolves a b → Evolves b c → Evolves a c
Evolves-trans {c = c} (added rs) k = added c
Evolves-trans (kept h e) (kept k e') = kept (Advances-trans h k) (Evolves-trans e e')

Moves-Advances : {r r' : JobRow} → Moves r r' → Advances r r'
Moves-Advances {r = r} stays = Advances-refl r
Moves-Advances (moves e a) = record { same_submission = e; path = step a here }

pub Step-Evolves : {a b : List JobRow} → Step a b → Evolves a b
Step-Evolves unchanged = added []
Step-Evolves (fresh r h) = added (r ∷ [])
Step-Evolves (moved m s) = kept (Moves-Advances m) (Step-Evolves s)

pub Step-refl : (rs : List JobRow) → Step rs rs
Step-refl [] = unchanged
Step-refl (r ∷ rs) = moved stays (Step-refl rs)

pub Step-append : (rs : List JobRow) (r : JobRow) → r.state ≡ pending → Step rs (rs ++ r ∷ [])
Step-append [] r h = fresh r h
Step-append (x ∷ xs) r h = moved stays (Step-append xs r h)

pub Step-update_where :
    (p : JobRow → Bool) (f : JobRow → JobRow) (rs : List JobRow)
    → All (λ r. p r ≡ true → Moves r (f r)) rs
    → Step rs (update_where p f rs)
unfolding update_where
Step-update_where p f [] h = unchanged
Step-update_where p f (r ∷ rs) h = elim (Bool-cases (p r)) [
  | inl e ↦ rw e (moved (h.0 e) (Step-update_where p f rs h.1))
  | inr e ↦ rw e (moved stays (Step-update_where p f rs h.1))
]

pub Step-update_all :
    (p : JobRow → Bool) (f : JobRow → JobRow)
    → ((r : JobRow) → p r ≡ true → Moves r (f r))
    → (rs : List JobRow) → Step rs (update_where p f rs)
Step-update_all p f h rs = Step-update_where p f rs (All-of (λ r. p r ≡ true → Moves r (f r)) h rs)

pub in_state-eq : (s : JobState) (r : JobRow) → in_state s r ≡ true → r.state ≡ s
in_state-eq s r h = ground arith
