-- ===== src/Time.antt =====
-- Package time, as the code uses it. An instant is the number of nanoseconds since Go's zero time
-- (year 1), a duration a number of nanoseconds in an int64. Monotonic readings are left out.
use psychic_funicular.Base.{ℕ, suc, ◌+◌, ◌-◌, ◌*◌, ◌/◌, Bool, if◌then◌else◌, ltb}
use psychic_funicular.Base.Int.{ℤ, pos, negsuc, ◌+ℤ◌, ◌-ℤ◌, ltb_ℤ, eqb_ℤ, half64, mul64}

abbrev pub Time : Type 0
Time = ℤ

abbrev pub Duration : Type 0
Duration = ℤ

-- time.Time{}
abbrev pub zero_time : Time
zero_time = pos 0

abbrev pub is_zero : Time → Bool
is_zero t = eqb_ℤ t zero_time

abbrev pub before : Time → Time → Bool
before a b = ltb_ℤ a b

abbrev pub after : Time → Time → Bool
after a b = ltb_ℤ b a

abbrev pub add : Time → Duration → Time
add t d = t +ℤ d

-- Time.Sub saturates at the ends of the int64 range.
unfoldable pub saturate : ℤ → Duration
saturate (pos n) = if ltb n half64 then pos n else pos (half64 - 1)
saturate (negsuc n) = if ltb n half64 then negsuc n else negsuc (half64 - 1)

unfoldable pub sub : Time → Time → Duration
unfolding saturate
sub a b = saturate (a -ℤ b)

abbrev pub nanos : ℕ
nanos = 1000000000

-- time.Duration(n) * time.Second, in 64 bits.
unfoldable pub seconds : ℤ → Duration
unfolding mul64
seconds n = mul64 n nanos

-- The seconds from the zero time to 1970.
abbrev pub epoch : ℕ
epoch = 62135596800

-- Time.Unix: whole seconds since 1970, rounded down.
unfoldable pub unix : Time → ℤ
unix (pos n) = pos (n / nanos) -ℤ pos epoch
unix (negsuc n) = negsuc (n / nanos) -ℤ pos epoch

-- time.Unix(u, 0)
unfoldable pub of_unix : ℤ → Time
of_unix (pos n) = pos ((n + epoch) * nanos)
of_unix (negsuc n) =
    if ltb n epoch then pos ((epoch - suc n) * nanos) else negsuc ((suc n - epoch) * nanos - 1)
