-- ===== src/Transport/Quoting.antt =====
-- A shell reads the quoted texts back as they were.
use Prim.Native.Char.{Char, code}
use Prim.Native.String.{◌++◌ as text_append}
use text.Mathlib.TextLemmas.{append_assoc, append-nil, cons-append, nil-append}
use text.Mathlib.TextEquality.{Char-path}
use psychic_funicular.Base.{
  Option, none, some, ◌++◌, ◌⊎◌, ◌≡◌, refl, sym, ap, ◌∙◌, String, List, [], Bool-cases, inl, inr,
  ◌==◌, ==_iff, false,
}
use psychic_funicular.Strings.{replace}
use psychic_funicular.Strings.Laws.{append_one}
use psychic_funicular.Transport.Shell.{shell_quote}
use psychic_funicular.Transport.Reader.{
  quoted, bare, between, read, push, Words, step, Class, outside, operator, Action, move, give_up,
  State, escaped, end_word, stop, ended, close,
}

abbrev mark : Char
mark = "'"

-- The quote behind a quoted text ends it.
reads_end : (w t : String) → read (quoted w) (String.◌∷◌ mark t) ≡ read (bare w) t
unfolding read step
reads_end w t = refl

reads_mark :
    (w t : String) → read (quoted w) (text_append "'\\''" t) ≡ read (quoted (push w mark)) t
unfolding read step psychic_funicular.Transport.Reader.class_of
reads_mark w t =
    rw
      (
        cons-append mark "\\''" t,
        cons-append "\\" "''" t,
        cons-append mark "'" t,
        cons-append mark "" t,
        nil-append t,
      )
      refl

reads_other :
    (w t : String) (c : Char)
    → (code c == 39) ≡ false
    → read (quoted w) (String.◌∷◌ c t) ≡ read (quoted (push w c)) t
unfolding read step
reads_other w t c e = rw (e, read) refl

reads_body :
    (w s t : String)
    → read (quoted w) (text_append (replace 39 "'\\''" s) (String.◌∷◌ mark t))
      ≡ read (bare (text_append w s)) t
unfolding replace
reads_body w String.[] t = rw (nil-append (String.◌∷◌ mark t), append-nil w) (reads_end w t)
reads_body w (String.◌∷◌ c s) t = elim (Bool-cases (code c == 39)) [
  | inl e ↦
      rw
        (
          e,
          append_assoc "'\\''" (replace 39 "'\\''" s) (String.◌∷◌ mark t),
          reads_mark w (text_append (replace 39 "'\\''" s) (String.◌∷◌ mark t)),
          reads_body (push w mark) s t,
          append_one w s mark,
          Char-path c mark ((==_iff (code c) 39).0 e),
        )
        refl
  | inr e ↦
      rw
        (
          e,
          cons-append c (replace 39 "'\\''" s) (String.◌∷◌ mark t),
          reads_other w (text_append (replace 39 "'\\''" s) (String.◌∷◌ mark t)) c e,
          reads_body (push w c) s t,
          append_one w s c,
        )
        refl
]

pub reads_quote : (s t : String) → read between (text_append (shell_quote s) t) ≡ read (bare s) t
unfolding shell_quote read step psychic_funicular.Transport.Reader.class_of
reads_quote s t =
    rw
      (
        shell_quote,
        append_assoc "'" (text_append (replace 39 "'\\''" s) "'") t,
        cons-append mark "" (text_append (text_append (replace 39 "'\\''" s) "'") t),
        nil-append (text_append (text_append (replace 39 "'\\''" s) "'") t),
        append_assoc (replace 39 "'\\''" s) "'" t,
        cons-append mark "" t,
        nil-append t,
      )
      (reads_body "" s t ∙ ap (λ w. read (bare w) t) (nil-append s))

-- Words in front of those that are read.
abbrev pub prepend : List String → Words → Words
prepend ws none = none
prepend ws (some (vs, t)) = some (ws ++ vs, t)

abbrev behind : State → Option (List String × State) → Option (List String × State)
behind st none = none
behind st (some (ws, next)) = some (close st ws, next)

-- The words that end within a text, and where the reader stands behind it.
unfoldable pub run : State → String → Option (List String × State)
run st String.[] = some ([], st)
run st (String.◌∷◌ c s) = elim (step st c) [
  | move next ↦ run next s
  | end_word ↦ behind st (run between s)
  | stop ↦ none
  | give_up ↦ none
]

prepend-nil : (r : Words) → prepend [] r ≡ r
prepend-nil none = refl
prepend-nil (some x) = refl

ended-prepend :
    (st : State) (ws : List String) (r : Words) → ended st (prepend ws r) ≡ prepend (close st ws) r
ended-prepend st ws none = refl
ended-prepend between ws (some x) = refl
ended-prepend (bare w) ws (some x) = refl
ended-prepend (quoted w) ws (some x) = refl
ended-prepend (escaped w) ws (some x) = refl

abbrev Resumes : State → String → Option (List String × State) → String → Type 0
Resumes st s none t = Unit
Resumes st s (some (ws, next)) t = read st (text_append s t) ≡ prepend ws (read next t)

moves :
    (st next : State) (c : Char) (s t : String) (o : Option (List String × State))
    → step st c ≡ move next
    → Resumes next s o t
    → Resumes st (String.◌∷◌ c s) o t
unfolding read
moves st next c s t none e h = tt
moves st next c s t (some x) e h = rw (cons-append c s t) (rw (e, read) h)

ends :
    (st : State) (c : Char) (s t : String) (o : Option (List String × State))
    → step st c ≡ end_word
    → Resumes between s o t
    → Resumes st (String.◌∷◌ c s) (behind st o) t
unfolding read
ends st c s t none e h = tt
ends st c s t (some (ws, next)) e h =
    rw (cons-append c s t) (rw (e, read) (ap (ended st) h ∙ ended-prepend st ws (read next t)))

Action-cases :
    (a : Action)
    → ((next : State) × (a ≡ move next)) ⊎ ((a ≡ end_word) ⊎ ((a ≡ stop) ⊎ (a ≡ give_up)))
Action-cases (move next) = inl (next, refl)
Action-cases end_word = inr (inl refl)
Action-cases stop = inr (inr (inl refl))
Action-cases give_up = inr (inr (inr refl))

pub resumes : (st : State) (s t : String) → Resumes st s (run st s) t
unfolding run
resumes st String.[] t = rw (nil-append t) (sym (prepend-nil (read st t)))
resumes st (String.◌∷◌ c s) t = elim (Action-cases (step st c)) [
  | inl (next, e) ↦ rw (e, run) (moves st next c s t (run next s) e (resumes next s t))
  | inr (inl e) ↦ rw (e, run) (ends st c s t (run between s) e (resumes between s t))
  | inr (inr (inl e)) ↦ rw (e, run) tt
  | inr (inr (inr e)) ↦ rw (e, run) tt
]
