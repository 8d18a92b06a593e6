-- ===== src/Agent/Backoff.antt =====
-- How long the registration waits, and that it ends.
use psychic_funicular.Base.{
  ℕ, zero, suc, ◌*◌, ◌^◌, ◌<◌, ◌≡◌, refl, ◌∙◌, false, String, Option, none, some, arith,
  if◌then◌else◌, ltb, length, get_elem?,
}
use psychic_funicular.Time.{nanos}
use psychic_funicular.Retry.{backoff_after, retry-wait, retry-returns}
use psychic_funicular.Agent.Register.{first_backoff, next_backoff, register}

-- From 16 seconds on the wait stays.
stays : (i : ℕ) → backoff_after next_backoff i (16 * nanos) ≡ 16 * nanos
unfolding backoff_after next_backoff
stays zero = refl
stays (suc i) = stays i

four_more :
    (i : ℕ) → backoff_after next_backoff (suc (suc (suc (suc i)))) first_backoff ≡ 16 * nanos
unfolding backoff_after next_backoff
four_more i = stays i

closed_form :
    (i : ℕ) → backoff_after next_backoff i first_backoff ≡ (if ltb i 4 then 2 ^ i else 16) * nanos
unfolding backoff_after next_backoff
closed_form zero = refl
closed_form (suc zero) = refl
closed_form (suc (suc zero)) = refl
closed_form (suc (suc (suc zero))) = refl
closed_form (suc (suc (suc (suc i)))) = rw (not_below i) (four_more i)
  where
    not_below : (k : ℕ) → ltb (suc (suc (suc (suc k)))) 4 ≡ false
    not_below k = ground arith

-- If the server first answers the try number `k`, and more tries than that are made, the registration
-- returns that answer after `k` waits; the wait number `i` is 2 ^ i seconds, and 16 seconds from the
-- fifth on.
pub register_returns :
    (tries k : ℕ) (answers : ℕ → Option String) (id : String)
    → k < tries
    → ((i : ℕ) → i < k → answers i ≡ none)
    → answers k ≡ some id
    → ((register tries answers).1 ≡ some id)
      × (length (register tries answers).0 ≡ k)
      × ((i w : ℕ)
          → get_elem? (register tries answers).0 i ≡ some w
          → w ≡ (if ltb i 4 then 2 ^ i else 16) * nanos)
unfolding register
register_returns tries k answers id h refused hit =
    let (found, waited) =
      retry-returns next_backoff tries first_backoff k answers id h refused hit in
    (
      found,
      waited,
      λ i w g. retry-wait next_backoff tries first_backoff w answers i g ∙ closed_form i,
    )
