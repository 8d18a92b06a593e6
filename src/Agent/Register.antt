-- ===== src/Agent/Register.antt =====
-- agent.go: the loop of `register`. The answers of the server are a stream, of which a number is tried.
use psychic_funicular.Base.{ℕ, ◌*◌, String, Option, List, if◌then◌else◌, ltb}
use psychic_funicular.Time.{nanos}
use psychic_funicular.Retry.{retry}

-- time.Second, and `backoff *= 2` below 16 seconds.
abbrev pub first_backoff : ℕ
first_backoff = nanos

unfoldable pub next_backoff : ℕ → ℕ
next_backoff b = if ltb b (16 * nanos) then b * 2 else b

unfoldable pub register : ℕ → (ℕ → Option String) → List ℕ × Option String
unfolding retry next_backoff
register tries answers = retry next_backoff tries first_backoff answers
