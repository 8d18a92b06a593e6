-- ===== src/Base/Sums.antt =====
-- Sums of a measure over a list, and the stable insertion sort that stands for package sort.
use Prim.Native.Nat.{ℕ, ◌+◌}
use mathlib.Core.Path.{◌≡◌, refl}
use mathlib.Core.Bool.{Bool}
use mathlib.Core.Logic.{inl, inr}
use mathlib.Core.List.{List, [], ◌∷◌, ◌++◌}
use native.Mathlib.Omega.{arith}
use psychic_funicular.Base.Tests.{if◌then◌else◌, Bool-cases}
use psychic_funicular.Base.Lists.{All}

module _ {ℓ} {A : Type ℓ} where
  abbrev pub sum_of : (A → ℕ) → List A → ℕ
  sum_of f [] = 0
  sum_of f (x ∷ xs) = f x + sum_of f xs

  pub sum_of-append : (f : A → ℕ) (xs ys : List A) → sum_of f (xs ++ ys) ≡ sum_of f xs + sum_of f ys
  sum_of-append f [] ys = omega arith
  sum_of-append f (x ∷ xs) ys = omega (arith, sum_of-append f xs ys)

  -- An element goes behind those that are not after it, so equal elements keep their order.
  pub insert_sorted : (A → A → Bool) → A → List A → List A
  insert_sorted lt x [] = x ∷ []
  insert_sorted lt x (y ∷ ys) =
      let rest = insert_sorted lt x ys in if lt x y then x ∷ y ∷ ys else y ∷ rest

  sort_onto : (A → A → Bool) → List A → List A → List A
  sort_onto lt acc [] = acc
  sort_onto lt acc (x ∷ xs) = sort_onto lt (insert_sorted lt x acc) xs

  -- sort.SliceStable, for a strict weak order.
  unfoldable pub sort : (A → A → Bool) → List A → List A
  unfolding sort_onto insert_sorted
  sort lt xs = sort_onto lt [] xs

  sum_of-insert_sorted :
      (lt : A → A → Bool) (f : A → ℕ) (x : A) (xs : List A)
      → sum_of f (insert_sorted lt x xs) ≡ f x + sum_of f xs
  unfolding insert_sorted
  sum_of-insert_sorted lt f x [] = refl
  sum_of-insert_sorted lt f x (y ∷ ys) = ground (arith, sum_of-insert_sorted lt f x ys)

  sum_of-sort_onto :
      (lt : A → A → Bool) (f : A → ℕ) (acc xs : List A)
      → sum_of f (sort_onto lt acc xs) ≡ sum_of f acc + sum_of f xs
  unfolding sort_onto
  sum_of-sort_onto lt f acc [] = omega arith
  sum_of-sort_onto lt f acc (x ∷ xs) =
      omega
        (arith, sum_of-sort_onto lt f (insert_sorted lt x acc) xs, sum_of-insert_sorted lt f x acc)

  pub sum_of-sort :
      (lt : A → A → Bool) (f : A → ℕ) (xs : List A) → sum_of f (sort lt xs) ≡ sum_of f xs
  unfolding sort
  sum_of-sort lt f xs = omega (arith, sum_of-sort_onto lt f [] xs)

module _ {ℓ κ} {A : Type ℓ} (P : A → Type κ) (lt : A → A → Bool) where
  All-insert_sorted : (x : A) (xs : List A) → P x → All P xs → All P (insert_sorted lt x xs)
  unfolding insert_sorted
  All-insert_sorted x [] p h = (p, tt)
  All-insert_sorted x (y ∷ ys) p h = elim (Bool-cases (lt x y)) [
    | inl e ↦ rw e (p, h)
    | inr e ↦ rw e (h.0, All-insert_sorted x ys p h.1)
  ]

  All-sort_onto : (acc xs : List A) → All P acc → All P xs → All P (sort_onto lt acc xs)
  unfolding sort_onto
  All-sort_onto acc [] ha h = ha
  All-sort_onto acc (x ∷ xs) ha h =
      All-sort_onto (insert_sorted lt x acc) xs (All-insert_sorted x acc h.0 ha) h.1

  pub All-sort : (xs : List A) → All P xs → All P (sort lt xs)
  unfolding sort
  All-sort xs h = All-sort_onto [] xs tt h

module _ {ℓ κ} {A : Type ℓ} (P : A → Type κ) (lt : A → A → Bool) where
  All-of_insert_sorted : (x : A) (xs : List A) → All P (insert_sorted lt x xs) → P x × All P xs
  unfolding insert_sorted
  All-of_insert_sorted x [] h = h
  All-of_insert_sorted x (y ∷ ys) h = elim (Bool-cases (lt x y)) [
    | inl e ↦ let h' : P x × All P (y ∷ ys) = rw e at h in h'
    | inr e ↦
        let h' : P y × All P (insert_sorted lt x ys) = rw e at h in
        let r = All-of_insert_sorted x ys h'.1 in (r.0, (h'.0, r.1))
  ]

  All-of_sort_onto : (acc xs : List A) → All P (sort_onto lt acc xs) → All P acc × All P xs
  unfolding sort_onto
  All-of_sort_onto acc [] h = (h, tt)
  All-of_sort_onto acc (x ∷ xs) h =
      let r = All-of_sort_onto (insert_sorted lt x acc) xs h in
      let q = All-of_insert_sorted x acc r.0 in (q.1, (q.0, r.1))

  -- What holds of all elements of a sorted list holds of all that were given.
  pub All-of_sort : (xs : List A) → All P (sort lt xs) → All P xs
  unfolding sort
  All-of_sort xs h = (All-of_sort_onto [] xs h).1
