-- ===== src/Agent/Pumped.antt =====
-- What a job prints stands in its log.
use Prim.Native.String.{◌++◌ as text_append}
use text.Mathlib.TextLemmas.{append_assoc, append-nil, nil-append}
use psychic_funicular.Base.{
  ◌≡◌, refl, ap, ◌∙◌, sym, false, String, Option, none, some, List, [], ◌∷◌, if◌then◌else◌, str_eq,
  str_eq_iff, lookup, insert, lookup-insert, inl, inr, Bool-cases, Option-cases, arith,
}
use psychic_funicular.Platform.{Platform}
use psychic_funicular.Format.{concat}
use psychic_funicular.Store.Api.{Store, ok}
use psychic_funicular.Notify.Engine.{Config}
use psychic_funicular.Server.State.{Server, Logs, log_path, append_log}
use psychic_funicular.Server.Agent.{append_logs}
use psychic_funicular.Agent.Pump.{Output, read, last, pump_logs, receive_logs}

-- All that a job prints.
abbrev pub printed : Output → String
printed (read text later) = text_append text (printed later)
printed (last text) = text

abbrev pub or_empty : Option String → String
or_empty none = ""
or_empty (some text) = text

-- The text of a file, empty if it is not there.
abbrev pub content : String → Logs → String
content path logs = or_empty (lookup path logs)

pumped_lem : (o : Output) → concat (pump_logs o) ≡ printed o
unfolding pump_logs
pumped_lem (read text later) = elim (Bool-cases (str_eq text "")) [
  | inl e ↦ rw e (
      pumped_lem later
      ∙ sym (nil-append (printed later))
      ∙ ap (λ t. text_append t (printed later)) (sym ((str_eq_iff text "").0 e)))
  | inr e ↦ rw e (ap (text_append text) (pumped_lem later))
]
pumped_lem (last text) = elim (Bool-cases (str_eq text "")) [
  | inl e ↦ rw e (sym ((str_eq_iff text "").0 e))
  | inr e ↦ rw e (append-nil text)
]

content-insert :
    (path q text : String) (logs : Logs)
    → content q (insert path text logs) ≡ (if str_eq path q then text else content q logs)
content-insert path q text logs =
    ap or_empty (lookup-insert path q text logs)
    ∙ (elim (Bool-cases (str_eq path q)) [ inl e ↦ rw e refl | inr e ↦ rw e refl ])

-- A call appends its text to the file of the job, and to no other.
append_log_lem :
    (dir job_id text path q : String) (logs : Logs)
    → log_path dir job_id ≡ ok path
    → content q (append_log dir job_id text logs).1
      ≡ (if str_eq path q then text_append (content path logs) text else content q logs)
unfolding append_log
append_log_lem dir job_id text path q logs h = elim (Option-cases (lookup path logs)) [
  | inl e ↦ rw (h, e, append_log) (content-insert path q text logs ∙ longer (sym (nil-append text)))
  | inr (old, e) ↦
      rw (h, e, append_log)
        (content-insert path q (text_append old (text_append text "")) logs
          ∙ longer (ap (text_append old) (append-nil text)))
]
  where
    longer :
        {t t' : String}
        → t ≡ t'
        → (if str_eq path q then t else content q logs)
          ≡ (if str_eq path q then t' else content q logs)
    longer e = ap (λ t. if str_eq path q then t else content q logs) e

named_job : (dir job_id path : String) → log_path dir job_id ≡ ok path → str_eq job_id "" ≡ false
unfolding log_path
named_job dir job_id path h = elim (Bool-cases (str_eq job_id "")) [
  | inl e ↦ absurd (ground (arith, rw (e, log_path) at h))
  | inr e ↦ e
]

module _ (p : Platform) (s : Store) (cfg : Config) where
  appended_lem :
      (dir job_id text path q : String) (w : Server p s cfg)
      → log_path dir job_id ≡ ok path
      → content q (append_logs p s cfg dir job_id text w).1.logs
        ≡ (if str_eq path q then text_append (content path w.logs) text else content q w.logs)
  unfolding append_logs
  appended_lem dir job_id text path q w h =
      rw (named_job dir job_id path h) (append_log_lem dir job_id text path q w.logs h)

  received_lem :
      (dir job_id path q : String) (texts : List String) (w : Server p s cfg)
      → log_path dir job_id ≡ ok path
      → content q (receive_logs p s cfg dir job_id texts w).logs ≡ (
          if str_eq path q
          then text_append (content path w.logs) (concat texts)
          else content q w.logs)
  unfolding receive_logs
  received_lem dir job_id path q [] w h = elim (Bool-cases (str_eq path q)) [
    | inl e ↦ rw e (
        ap (λ r. content r w.logs) (sym ((str_eq_iff path q).0 e))
        ∙ sym (append-nil (content path w.logs)))
    | inr e ↦ rw e refl
  ]
  received_lem dir job_id path q (text ∷ texts) w h =
      let w' = (append_logs p s cfg dir job_id text w).1 in
      received_lem dir job_id path q texts w' h ∙ (elim (Bool-cases (str_eq path q)) [
        | inl e ↦ rw e (
            ap (λ t. text_append t (concat texts))
              (appended_lem dir job_id text path path w h ∙ rw ((str_eq_iff path path).1 refl) refl)
            ∙ append_assoc (content path w.logs) text (concat texts))
        | inr e ↦ rw e (appended_lem dir job_id text path q w h ∙ rw e refl)
      ])

  -- If the id of a job names a log and every call of `pumpLogs` reaches the server, then after them the log
  -- holds what it held before and behind it all that the job printed, in order, and every other file is as
  -- it was; this holds for every way that the pipe cuts the output into pieces, empty ones too.
  pub pumped_is_logged :
      (dir job_id path q : String) (o : Output) (w : Server p s cfg)
      → log_path dir job_id ≡ ok path
      → content q (receive_logs p s cfg dir job_id (pump_logs o) w).logs ≡ (
          if str_eq path q then text_append (content path w.logs) (printed o) else content q w.logs)
  pumped_is_logged dir job_id path q o w h =
      received_lem dir job_id path q (pump_logs o) w h
      ∙ ap (λ t. if str_eq path q then text_append (content path w.logs) t else content q w.logs)
          (pumped_lem o)
