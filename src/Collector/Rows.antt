-- ===== src/Collector/Rows.antt =====
-- Lines of columns: texts without blanks at their ends and without separators are read back from a line.
use Prim.Native.Char.{Char, code}
use Prim.Native.String.{◌++◌ as text_append}
use text.Mathlib.TextLemmas.{append-nil, cons-append, nil-append}
use psychic_funicular.Base.{
  ℕ, ◌≡◌, refl, sym, ap, ◌∙◌, Bool, true, false, not, ◌&&◌, String, List, [], ◌∷◌, arith, ◌==◌,
  Bool-cases, inl, inr, ==_iff,
}
use psychic_funicular.Strings.{
  is_empty, is_space, trim_left, trim_right, trim_space, onto_first, split_where, split,
}

-- The first character, or the last one, is no blank.
unfoldable pub starts_clean : String → Bool
unfolding is_space
starts_clean String.[] = false
starts_clean (String.◌∷◌ c s) = not (is_space (code c))

unfoldable pub ends_clean : String → Bool
unfolding is_space
ends_clean String.[] = false
ends_clean (String.◌∷◌ c String.[]) = not (is_space (code c))
ends_clean (String.◌∷◌ c (String.◌∷◌ d s)) = ends_clean (String.◌∷◌ d s)

-- A character does not stand in a text.
unfoldable pub lacks : ℕ → String → Bool
lacks x String.[] = true
lacks x (String.◌∷◌ c s) = not (code c == x) && lacks x s

trim_left_lem : (s : String) → starts_clean s ≡ true → trim_left s ≡ s
unfolding trim_left starts_clean is_space
trim_left_lem String.[] h = refl
trim_left_lem (String.◌∷◌ c s) h = ground (arith, h)

trim_right_cons :
    (c : Char) (s : String)
    → is_empty (trim_right s) ≡ false
    → trim_right (String.◌∷◌ c s) ≡ String.◌∷◌ c (trim_right s)
unfolding trim_right
trim_right_cons c s h = rw h refl

trim_right_lem : (s : String) → ends_clean s ≡ true → trim_right s ≡ s
unfolding trim_right ends_clean is_space
trim_right_lem String.[] h = refl
trim_right_lem (String.◌∷◌ c String.[]) h = ground (arith, h)
trim_right_lem (String.◌∷◌ c (String.◌∷◌ d s)) h =
    let rest = trim_right_lem (String.◌∷◌ d s) h in
    trim_right_cons c (String.◌∷◌ d s) (ap is_empty rest) ∙ ap (λ x. String.◌∷◌ c x) rest

pub trim_clean : (s : String) → starts_clean s ≡ true → ends_clean s ≡ true → trim_space s ≡ s
unfolding trim_space
trim_clean s h k = ap trim_right (trim_left_lem s h) ∙ trim_right_lem s k

pub trim_spaced :
    (s : String) → starts_clean s ≡ true → ends_clean s ≡ true → trim_space (String.◌∷◌ " " s) ≡ s
unfolding trim_space trim_left is_space
trim_spaced s h k = trim_clean s h k

onto_nil : (c : String) (xs : List String) → onto_first "" (onto_first c xs) ≡ onto_first c xs
onto_nil c [] = ap (λ x. x ∷ []) (nil-append c)
onto_nil c (y ∷ ys) = ap (λ x. x ∷ ys) (nil-append (text_append c y))

onto_onto :
    (c : Char) (a : String) (xs : List String)
    → onto_first (String.◌∷◌ c "") (onto_first a xs) ≡ onto_first (String.◌∷◌ c a) xs
onto_onto c a [] = ap (λ x. x ∷ []) (cons-append c "" a ∙ ap (λ x. String.◌∷◌ c x) (nil-append a))
onto_onto c a (y ∷ ys) =
    ap (λ x. x ∷ ys)
      (cons-append c "" (text_append a y)
        ∙ ap (λ x. String.◌∷◌ c x) (nil-append (text_append a y))
        ∙ sym (cons-append c a y))

split_nil : (x : ℕ) (t : String) → onto_first "" (split x t) ≡ split x t
unfolding split split_where
split_nil x String.[] = refl
split_nil x (String.◌∷◌ c t) = elim (Bool-cases (code c == x)) [
  | inl e ↦ rw e refl
  | inr e ↦ rw e (onto_nil (String.◌∷◌ c "") (split_where (λ d. d == x) t))
]

-- A text without separators stands in front of the first part of what follows.
pub split-lacks :
    (x : ℕ) (a t : String) → lacks x a ≡ true → split x (text_append a t) ≡ onto_first a (split x t)
unfolding split split_where lacks
split-lacks x String.[] t h = ap (split x) (nil-append t) ∙ sym (split_nil x t)
split-lacks x (String.◌∷◌ c a) t h = elim (Bool-cases (code c == x)) [
  | inl e ↦ absurd (ground (arith, h, e))
  | inr e ↦
      let rest = split-lacks x a t (rw e at h) in
      rw (cons-append c a t, e)
        (ap (onto_first (String.◌∷◌ c "")) rest ∙ onto_onto c a (split_where (λ d. d == x) t))
]

-- Such a text is a part of its own, at the end and in front of a separator.
pub split_last : (x : ℕ) (a : String) → lacks x a ≡ true → split x a ≡ a ∷ []
unfolding split split_where
split_last x a h =
    ap (split x) (sym (append-nil a)) ∙ split-lacks x a "" h ∙ ap (λ y. y ∷ []) (append-nil a)

split_at : (c : Char) (t : String) → split (code c) (String.◌∷◌ c t) ≡ "" ∷ split (code c) t
unfolding split split_where
split_at c t = rw ((==_iff (code c) (code c)).1 refl) refl

pub split_next :
    (c : Char) (a t : String)
    → lacks (code c) a ≡ true
    → split (code c) (text_append a (String.◌∷◌ c t)) ≡ a ∷ split (code c) t
split_next c a t h =
    split-lacks (code c) a (String.◌∷◌ c t) h
    ∙ ap (onto_first a) (split_at c t)
    ∙ ap (λ y. y ∷ split (code c) t) (append-nil a)
