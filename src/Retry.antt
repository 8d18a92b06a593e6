-- ===== src/Retry.antt =====
-- A loop that tries until it succeeds, and waits between two tries: the registration of an agent
-- (internal/agent/agent.go) and the delivery of an agent (internal/server/server.go).
use psychic_funicular.Base.{
  ℕ, zero, suc, ◌<◌, ◌≡◌, refl, ap, Option, none, some, List, [], ◌∷◌, inl, inr, arith, length,
  get_elem?, Option-cases,
}

module _ (next : ℕ → ℕ) where
  -- The backoff after some failed tries.
  unfoldable pub backoff_after : ℕ → ℕ → ℕ
  backoff_after zero b = b
  backoff_after (suc i) b = backoff_after i (next b)

  -- The waits of a try that fails, at a place.
  shifted :
      (b w : ℕ) (ws : List ℕ)
      → ((k : ℕ) → get_elem? ws k ≡ some w → w ≡ backoff_after k (next b))
      → (i : ℕ) → get_elem? (b ∷ ws) i ≡ some w
      → w ≡ backoff_after i b
  unfolding backoff_after
  shifted b w ws h zero g = ground (arith, g)
  shifted b w ws h (suc k) g = h k g

module _ {A : Type 0} (next : ℕ → ℕ) where
  -- The waits before the next tries, and the answer if a try succeeds; `tries` answers are looked at.
  unfoldable pub retry : ℕ → ℕ → (ℕ → Option A) → List ℕ × Option A
  retry zero backoff answers = ([], none)
  retry (suc tries) backoff answers =
      let rest = retry tries (next backoff) (λ n. answers (suc n)) in
      elim (answers 0) [ some a ↦ ([], some a) | none ↦ (backoff ∷ rest.0, rest.1) ]

  pub retry-wait :
      (tries b w : ℕ) (answers : ℕ → Option A) (i : ℕ)
      → get_elem? (retry tries b answers).0 i ≡ some w
      → w ≡ backoff_after next i b
  unfolding retry
  retry-wait zero b w answers i h = absurd (ground (arith, h))
  retry-wait (suc tries) b w answers i h = elim (Option-cases (answers 0)) [
    | inl e ↦
        shifted next b w (retry tries (next b) (λ n. answers (suc n))).0
          (retry-wait tries (next b) w (λ n. answers (suc n))) i (rw (e, retry) at h)
    | inr (id, e) ↦ absurd (ground (arith, rw (e, retry) at h))
  ]

  pub retry-returns :
      (tries b k : ℕ) (answers : ℕ → Option A) (a : A)
      → k < tries
      → ((i : ℕ) → i < k → answers i ≡ none)
      → answers k ≡ some a
      → ((retry tries b answers).1 ≡ some a) × (length (retry tries b answers).0 ≡ k)
  unfolding retry
  retry-returns zero b k answers a h refused hit = absurd (omega (arith, h))
  retry-returns (suc tries) b zero answers a h refused hit = rw (hit, retry) (refl, refl)
  retry-returns (suc tries) b (suc k) answers a h refused hit =
      let (found, waited) =
        retry-returns tries (next b) k (λ n. answers (suc n)) a (omega (arith, h))
          (λ i l. refused (suc i) (omega (arith, l))) hit in
      rw (refused 0 (omega arith), retry) (found, ap suc waited)
