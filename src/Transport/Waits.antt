-- ===== src/Transport/Waits.antt =====
-- How long the loop of a tunnel waits.
use psychic_funicular.Base.{
  ℕ, zero, suc, ◌*◌, ◌^◌, ◌≡◌, refl, ap, false, List, [], ◌∷◌, map, inl, inr, arith, Bool-cases,
  if◌then◌else◌, ltb,
}
use psychic_funicular.Time.{nanos}
use psychic_funicular.Transport.Tunnel.{doubled, is_stable, run_loop, run, failures_before}

-- The wait behind a connection that so many failures stand in front of.
abbrev pub wait_after : ℕ → ℕ
wait_after n = (if ltb n 5 then 2 ^ n else 32) * nanos

at_limit : (n : ℕ) → ltb (suc (suc (suc (suc (suc n))))) 5 ≡ false
at_limit n = ground arith

pub doubled_lem : (n : ℕ) → doubled (wait_after n) ≡ wait_after (suc n)
unfolding doubled
doubled_lem zero = refl
doubled_lem (suc zero) = refl
doubled_lem (suc (suc zero)) = refl
doubled_lem (suc (suc (suc zero))) = refl
doubled_lem (suc (suc (suc (suc zero)))) = refl
doubled_lem (suc (suc (suc (suc (suc n))))) = rw (at_limit n, at_limit (suc n)) refl

loop_waits :
    (n : ℕ) (served : List ℕ)
    → run_loop (wait_after n) served ≡ map wait_after (failures_before n served)
unfolding run_loop failures_before
loop_waits n [] = refl
loop_waits n (elapsed ∷ later) = elim (Bool-cases (is_stable elapsed)) [
  | inl e ↦ rw e (ap (λ ws. nanos ∷ ws) (loop_waits 1 later))
  | inr e ↦ rw (e, doubled_lem n) (ap (λ ws. wait_after n ∷ ws) (loop_waits (suc n) later))
]

-- Whatever the times that the connections of a tunnel stand, the loop waits 2 ^ n seconds before it
-- connects again, and 32 seconds from n = 5 on, where n is the number of connections in a row that failed
-- within 30 seconds, since the start or since one that did not, that one and the first one not counted.
pub tunnel_waits : (served : List ℕ) → run served ≡ map wait_after (failures_before 0 served)
unfolding run
tunnel_waits served = loop_waits 0 served
