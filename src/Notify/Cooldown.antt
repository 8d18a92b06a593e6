-- ===== src/Notify/Cooldown.antt =====
-- The cooldown of a rule, over any sequence of events.
use mathlib.Core.Path.{subst}
use psychic_funicular.Base.{
  ◌∙◌, true, false, String, Option, some, List, [], ◌∷◌, ◌≡◌, refl, inl, inr, if◌then◌else◌,
  Bool-cases, str_eq, str_eq_iff, lookup, insert, lookup-insert,
}
use psychic_funicular.Base.Int.{pos, leb_ℤ}
use psychic_funicular.Time.{Time, Duration}
use psychic_funicular.Model.{Event}
use psychic_funicular.Notify.Rules.{NotifyRule}
use psychic_funicular.Notify.Engine.{Cooldowns, cooldown_key, is_cooling, allow}

-- What the engine is asked in turn: a rule, an event that it matches, and the time.
pub record Request : Type 0 where
  pub rule : NotifyRule
  pub event : Event
  pub at : Time

-- The times at which the requests under a key and with a cooldown are let through, in order.
unfoldable pub let_through : String → Duration → Cooldowns → List Request → List Time
unfolding allow
let_through key cd cool [] = []
let_through key cd cool (r ∷ rs) =
    let (ok, cool') = allow r.rule r.event r.at cool in
    let rest = let_through key cd cool' rs in
    if str_eq (cooldown_key r.rule r.event) key then if ok then r.at ∷ rest else rest else rest

-- Each time is at least the cooldown after the one before it, the first one after `last`.
abbrev pub Spaced : Duration → Option Time → List Time → Type 0
Spaced cd last [] = Unit
Spaced cd last (t ∷ ts) = (is_cooling last t cd ≡ false) × Spaced cd (some t) ts

-- Every request under the key has the cooldown, which is positive.
abbrev pub SameRule : String → Duration → List Request → Type 0
SameRule key cd [] = Unit
SameRule key cd (r ∷ rs) =
    (str_eq (cooldown_key r.rule r.event) key ≡ true → r.rule.cooldown ≡ cd) × SameRule key cd rs

allow-refused :
    (r : NotifyRule) (ev : Event) (now : Time) (cool : Cooldowns)
    → leb_ℤ r.cooldown (pos 0) ≡ false
    → is_cooling (lookup (cooldown_key r ev) cool) now r.cooldown ≡ true
    → allow r ev now cool ≡ (false, cool)
unfolding allow
allow-refused r ev now cool h c = rw (h, c) refl

allow-accepted :
    (r : NotifyRule) (ev : Event) (now : Time) (cool : Cooldowns)
    → leb_ℤ r.cooldown (pos 0) ≡ false
    → is_cooling (lookup (cooldown_key r ev) cool) now r.cooldown ≡ false
    → allow r ev now cool ≡ (true, insert (cooldown_key r ev) now cool)
unfolding allow
allow-accepted r ev now cool h c = rw (h, c) refl

-- A request leaves the times of the other keys alone.
allow-other :
    (key : String) (r : NotifyRule) (ev : Event) (now : Time) (cool : Cooldowns)
    → str_eq (cooldown_key r ev) key ≡ false
    → lookup key (allow r ev now cool).1 ≡ lookup key cool
unfolding allow
allow-other key r ev now cool h = elim (Bool-cases (leb_ℤ r.cooldown (pos 0))) [
  | inl e ↦ rw e refl
  | inr e ↦ elim (Bool-cases (is_cooling (lookup (cooldown_key r ev) cool) now r.cooldown)) [
    | inl c ↦ rw (e, c) refl
    | inr c ↦ rw (e, c) (lookup-insert (cooldown_key r ev) key now cool ∙ rw h refl)
  ]
]

lookup-own :
    (k key : String) (v : Time) (cool : Cooldowns)
    → str_eq k key ≡ true
    → lookup key (insert k v cool) ≡ some v
lookup-own k key v cool e = lookup-insert k key v cool ∙ rw e refl

-- The rules of the requests with a key have one cooldown, positive: two that are let through are at
-- least that cooldown apart, whatever comes between them; the first one is as far from the time that
-- is kept for the key.
pub cooldown_spaces :
    (key : String) (cd : Duration) (cool : Cooldowns) (rs : List Request)
    → leb_ℤ cd (pos 0) ≡ false
    → SameRule key cd rs
    → Spaced cd (lookup key cool) (let_through key cd cool rs)
unfolding let_through
cooldown_spaces key cd cool [] h s = tt
cooldown_spaces key cd cool (r ∷ rs) h s = elim (Bool-cases (str_eq own key)) [
  | inl e ↦ elim (Bool-cases (is_cooling (lookup own cool) r.at r.rule.cooldown)) [
    | inl c ↦
        rw (e, allow-refused r.rule r.event r.at cool (positive e) c)
          (cooldown_spaces key cd cool rs h s.1)
    | inr c ↦
        rw (e, allow-accepted r.rule r.event r.at cool (positive e) c)
          (
            first e c,
            subst (λ last. Spaced cd last (let_through key cd (stored) rs))
                (lookup-own own key r.at cool e) (cooldown_spaces key cd stored rs h s.1),
          )
  ]
  | inr e ↦ rw e (
      subst (λ last. Spaced cd last (let_through key cd (allow r.rule r.event r.at cool).1 rs))
        (allow-other key r.rule r.event r.at cool e)
        (cooldown_spaces key cd (allow r.rule r.event r.at cool).1 rs h s.1))
]
  where
    own : String
    own = cooldown_key r.rule r.event

    stored : Cooldowns
    stored = insert own r.at cool

    positive : str_eq own key ≡ true → leb_ℤ r.rule.cooldown (pos 0) ≡ false
    positive e = rw (s.0 e) h

    first :
        str_eq own key ≡ true
        → is_cooling (lookup own cool) r.at r.rule.cooldown ≡ false
        → is_cooling (lookup key cool) r.at cd ≡ false
    first e c =
        subst (λ k. is_cooling (lookup k cool) r.at cd ≡ false) ((str_eq_iff own key).0 e)
          (subst (λ d. is_cooling (lookup own cool) r.at d ≡ false) (s.0 e) c)
