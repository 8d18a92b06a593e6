-- ===== src/Transport/Tunnel.antt =====
-- ssh.go: the loop of `Run`, which keeps a tunnel up, and server.go: the delivery of an agent to a node.
use psychic_funicular.Base.{ℕ, suc, ◌*◌, Bool, List, [], ◌∷◌, if◌then◌else◌, ltb}
use psychic_funicular.Time.{nanos}

-- `backoff *= 2` below 30 seconds.
unfoldable pub doubled : ℕ → ℕ
doubled b = if ltb b (30 * nanos) then b * 2 else b

-- Did a connection stand for more than 30 seconds?
abbrev pub is_stable : ℕ → Bool
is_stable elapsed = ltb (30 * nanos) elapsed

-- The waits of the loop, for the times that its connections stood.
unfoldable pub run_loop : ℕ → List ℕ → List ℕ
unfolding doubled
run_loop backoff [] = []
run_loop backoff (elapsed ∷ later) =
    let b = if is_stable elapsed then nanos else backoff in b ∷ run_loop (doubled b) later

unfoldable pub run : List ℕ → List ℕ
unfolding run_loop
run served = run_loop nanos served

-- How many connections in a row, up to each one, have failed early after one that has not; the first one
-- counts as such.
unfoldable pub failures_before : ℕ → List ℕ → List ℕ
failures_before n [] = []
failures_before n (elapsed ∷ later) =
    let m = if is_stable elapsed then 0 else n in m ∷ failures_before (suc m) later
