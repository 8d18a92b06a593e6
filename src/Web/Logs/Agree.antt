-- ===== src/Web/Logs/Agree.antt =====
-- The console streams the bytes that the gRPC call streams.
use psychic_funicular.Base.{
  ℕ, ◌⊎◌, ◌≡◌, sym, refl, ap, ◌∙◌, Bool, true, false, ◌||◌, not, String, Option, none, some, List,
  [], ◌∷◌, ◌++◌, if◌then◌else◌, length, inl, inr, Bool-cases, str_eq,
}
use mathlib.Core.List.{append-nil}
use psychic_funicular.Model.{JobState}
use psychic_funicular.Store.Api.{ok}
use psychic_funicular.Server.Logs.{
  Bytes, Round, open_log, File, absent, broken, open_at, drain, is_over, follow_loop, behind_drain,
  last_drain, get_job_logs, Ending, finished, cancelled,
}
use psychic_funicular.Server.Logs.Delivered.{Sees, joined, Gets-Sees}
use psychic_funicular.Web.Logs.{closed, Stream, http_behind_drain, http_loop, job_logs_stream}

behind_agrees :
    (follow : Bool) (t : Round) (r : Stream) (q : List Bytes × Ending)
    (d : List Bytes × Option String)
    → r.0 ≡ q.0
    → (http_behind_drain follow t r d).0 ≡ (behind_drain follow t q d).0
unfolding http_behind_drain behind_drain last_drain
behind_agrees follow t r q (sent, some e) h = refl
behind_agrees false t r q (sent, none) h = sym (append-nil sent)
behind_agrees true t r q (sent, none) h = elim (Bool-cases (is_over t.job)) [
  | inl e ↦ rw e refl
  | inr e ↦ elim (Bool-cases t.gone) [
    | inl g ↦ rw (e, g) (sym (append-nil sent))
    | inr g ↦ rw (e, g) (ap (λ x. sent ++ x) h)
  ]
]

File-cases : (f : File) → (f ≡ absent) ⊎ ((f ≡ broken) ⊎ ((place : ℕ) × (f ≡ open_at place)))
File-cases absent = inl refl
File-cases broken = inr (inl refl)
File-cases (open_at place) = inr (inr (place, refl))

-- A round without a file: the console leaves where the call does.
absent_agrees :
    (over gone : Bool) (r : Stream) (q : List Bytes × Ending)
    → r.0 ≡ q.0
    → (if over || gone then ([], closed) else r).0
      ≡ (if over then ([], finished) else if gone then ([], cancelled) else q).0
absent_agrees true gone r q h = refl
absent_agrees false true r q h = refl
absent_agrees false false r q h = h

loops_agree :
    (follow : Bool) (seen : Option ℕ) (rounds : List Round)
    → (http_loop follow seen rounds).0 ≡ (follow_loop follow seen rounds).0
unfolding http_loop follow_loop
loops_agree follow seen [] = refl
loops_agree follow seen (t ∷ ts) = elim (File-cases (open_log seen t.opening)) [
  | inl e ↦
      rw (e, http_loop, follow_loop)
        (absent_agrees (not follow || is_over t.job) t.gone (http_loop follow none ts)
          (follow_loop follow none ts) (loops_agree follow none ts))
  | inr (inl e) ↦ rw (e, http_loop, follow_loop) refl
  | inr (inr (place, e)) ↦
      rw (e, http_loop, follow_loop)
        (behind_agrees follow t (http_loop follow (some (length t.content)) ts)
          (follow_loop follow (some (length t.content)) ts) (drain t.fault place t.content)
          (loops_agree follow (some (length t.content)) ts))
]

-- A client that follows the log of a job of the store, by the gRPC call or in the console, receives, if no
-- call fails, the client stays, the file of the log only grows, and it is there when the job has come to
-- its end, exactly the bytes that the log has then, each once and in order; and the gRPC call ends.
pub followers_get_log :
    (job_id : String) (state : JobState) (rounds : List Round) (final : Bytes)
    → str_eq job_id "" ≡ false
    → Sees none rounds final
    → ((get_job_logs job_id true (ok (some state)) rounds).1 ≡ finished)
      × (joined (get_job_logs job_id true (ok (some state)) rounds).0 ≡ final)
      × (joined (job_logs_stream true (ok (some state)) rounds).0 ≡ final)
unfolding get_job_logs job_logs_stream
followers_get_log job_id state rounds final h sees =
    let (ended, all) = Gets-Sees sees in
    rw h (ended, all, ap joined (loops_agree true none rounds) ∙ all)
