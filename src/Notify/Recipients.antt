-- ===== src/Notify/Recipients.antt =====
-- The recipients of a rule: each one a rule names, once, and no empty one.
use psychic_funicular.Base.{
  Bool, true, false, not, ◌&&◌, ◌||◌, String, List, [], ◌∷◌, ◌≡◌, refl, arith, if◌then◌else◌, any,
  str_eq, str_eq_iff, str_mem, ap, ◌∙◌, ◌∙◌,
}
use psychic_funicular.Model.{Event}
use psychic_funicular.Notify.Rules.{resolve, resolve_loop, resolve_recipients}

-- Is some entry of the list resolved to the recipient?
abbrev pub names : Event → List String → String → Bool
names ev to v = any (λ t. str_eq (resolve ev t) v) to

-- No text stands twice in the list.
abbrev pub distinct : List String → Bool
distinct [] = true
distinct (s ∷ ss) = not (str_mem s ss) && distinct ss

-- What one round of the loop adds, as an equation of tests: `ex` and `sx` tell that the entry is empty
-- or seen, `e` and `sv` the same of the text asked about, `xv` that these two are equal.
round :
    (ex sx e sv xv n m m' : Bool)
    → (xv ≡ true → (ex ≡ e) × (sx ≡ sv))
    → m ≡ (n && (not e && not sv))
    → m' ≡ (n && (not e && not (xv || sv)))
    → (if ex then m else if sx then m else xv || m') ≡ ((xv || n) && (not e && not sv))
round ex sx e sv true n m m' h hm hm' = ground (arith, h refl, hm, hm')
round ex sx e sv false n m m' h hm hm' = ground (arith, hm, hm')

same_tests :
    (x v : String) (seen : List String)
    → str_eq x v ≡ true
    → (str_eq x "" ≡ str_eq v "") × (str_mem x seen ≡ str_mem v seen)
same_tests x v seen h =
    let e : x ≡ v = (str_eq_iff x v).0 h in (ap (λ s. str_eq s "") e, ap (λ s. str_mem s seen) e)

push_mem :
    (v x : String) (a b : Bool) (rest rest' : List String)
    → str_mem v (if a then rest else if b then rest else x ∷ rest') ≡ (
        if a then str_mem v rest else if b then str_mem v rest else (str_eq x v || str_mem v rest'))
push_mem v x true b rest rest' = refl
push_mem v x false true rest rest' = refl
push_mem v x false false rest rest' = refl

push_distinct :
    (x : String) (a b : Bool) (rest rest' : List String)
    → distinct rest ≡ true
    → distinct (x ∷ rest') ≡ true
    → distinct (if a then rest else if b then rest else x ∷ rest') ≡ true
push_distinct x true b rest rest' h h' = h
push_distinct x false true rest rest' h h' = h
push_distinct x false false rest rest' h h' = h'

module _ (ev : Event) where
  resolve_loop-mem :
      (v : String) (seen to : List String)
      → str_mem v (resolve_loop ev seen to)
        ≡ (names ev to v && (not (str_eq v "") && not (str_mem v seen)))
  unfolding resolve_loop
  resolve_loop-mem v seen [] = refl
  resolve_loop-mem v seen (t ∷ ts) =
      let x = resolve ev t in
      let rest = resolve_loop ev seen ts in
      let rest' = resolve_loop ev (x ∷ seen) ts in
      push_mem v x (str_eq x "") (str_mem x seen) rest rest'
      ∙ (round (str_eq x "") (str_mem x seen) (str_eq v "") (str_mem v seen) (str_eq x v)
          (names ev ts v) (str_mem v rest) (str_mem v rest') (same_tests x v seen)
          (resolve_loop-mem v seen ts) (resolve_loop-mem v (x ∷ seen) ts))

  seen_once :
      (x : String) (seen to : List String)
      → distinct (resolve_loop ev (x ∷ seen) to) ≡ true
      → distinct (x ∷ resolve_loop ev (x ∷ seen) to) ≡ true
  seen_once x seen to h =
      ground (arith, h, (str_eq_iff x x).1 refl, resolve_loop-mem x (x ∷ seen) to)

  resolve_loop-distinct : (seen to : List String) → distinct (resolve_loop ev seen to) ≡ true
  unfolding resolve_loop
  resolve_loop-distinct seen [] = refl
  resolve_loop-distinct seen (t ∷ ts) =
      let x = resolve ev t in
      push_distinct x (str_eq x "") (str_mem x seen) (resolve_loop ev seen ts)
        (resolve_loop ev (x ∷ seen) ts) (resolve_loop-distinct seen ts)
        (seen_once x seen ts (resolve_loop-distinct (x ∷ seen) ts))

  -- Whatever the entries of a rule, the resolved recipients stand in the list once each, and a text is
  -- one of them exactly if it is not empty and some entry resolves to it.
  pub recipients_of_rule :
      (to : List String)
      → (distinct (resolve_recipients to ev) ≡ true)
        × ((v : String)
            → str_mem v (resolve_recipients to ev) ≡ (names ev to v && not (str_eq v "")))
  unfolding resolve_recipients
  recipients_of_rule to =
      (resolve_loop-distinct [] to, λ v. ground (arith, resolve_loop-mem v [] to))
