-- ===== src/Format.antt =====
-- Joined and formatted texts: the pieces of `+` and of fmt.Sprintf, `%d`, strings.Join, and the cuts
-- of a text that notify/rule.go makes.
use Prim.Native.Char.{code}
use Prim.Native.String.{◌++◌ as text_append}
use text.Mathlib.Text.{starts_with}
use psychic_funicular.Base.{
  ℕ, zero, suc, ◌/◌, ◌%◌, ◌≤◌, ◌≡◌, refl, Bool, false, ◌&&◌, String, Option, none, some, List, [],
  ◌∷◌, arith, if◌then◌else◌, ltb, ◌==◌,
}

abbrev pub concat : List String → String
concat [] = ""
concat (s ∷ ss) = text_append s (concat ss)

-- strings.Join
abbrev pub join : String → List String → String
join sep [] = ""
join sep (s ∷ []) = s
join sep (s ∷ t ∷ ss) = text_append s (text_append sep (join sep (t ∷ ss)))

abbrev pub digit : ℕ → String
digit zero = "0"
digit (suc zero) = "1"
digit (suc (suc zero)) = "2"
digit (suc (suc (suc zero))) = "3"
digit (suc (suc (suc (suc zero)))) = "4"
digit (suc (suc (suc (suc (suc zero))))) = "5"
digit (suc (suc (suc (suc (suc (suc zero)))))) = "6"
digit (suc (suc (suc (suc (suc (suc (suc zero))))))) = "7"
digit (suc (suc (suc (suc (suc (suc (suc (suc zero)))))))) = "8"
digit _ = "9"

-- Decimal digits. The number is enough fuel, since it falls with every digit.
decimal_loop : ℕ → ℕ → String
decimal_loop zero n = digit n
decimal_loop (suc fuel) n =
    let front = decimal_loop fuel (n / 10) in
    if ltb n 10 then digit n else text_append front (digit (n % 10))

unfoldable pub decimal : ℕ → String
unfolding decimal_loop
decimal n = decimal_loop n n

decimal_loop_fuel : (f g n : ℕ) → n ≤ f → n ≤ g → decimal_loop f n ≡ decimal_loop g n
unfolding decimal_loop
decimal_loop_fuel zero zero n h k = refl
decimal_loop_fuel zero (suc g) n h k = ground (arith, h)
decimal_loop_fuel (suc f) zero n h k = ground (arith, k)
decimal_loop_fuel (suc f) (suc g) n h k = ground (arith, decimal_loop_fuel f g (n / 10))

-- The fuel never runs out: printing follows the usual recursion at every number.
pub decimal_lem :
    (n : ℕ)
    → decimal n ≡ (if ltb n 10 then digit n else text_append (decimal (n / 10)) (digit (n % 10)))
unfolding decimal
decimal_lem zero = refl
decimal_lem (suc n) = ground (arith, decimal_loop_fuel n (suc n / 10) (suc n / 10))

-- Does a text end with `}`?
abbrev pub ends_with_brace : String → Bool
ends_with_brace String.[] = false
ends_with_brace (String.◌∷◌ c String.[]) = code c == b'}'
ends_with_brace (String.◌∷◌ c (String.◌∷◌ d s)) = ends_with_brace (String.◌∷◌ d s)

abbrev pub drop_first : String → String
drop_first String.[] = ""
drop_first (String.◌∷◌ c s) = s

abbrev pub drop_last : String → String
drop_last String.[] = ""
drop_last (String.◌∷◌ c String.[]) = ""
drop_last (String.◌∷◌ c (String.◌∷◌ d s)) = String.◌∷◌ c (drop_last (String.◌∷◌ d s))

-- The label named by `${label}`, which is `t[2:len(t)-1]`.
unfoldable pub label_ref : String → Option String
label_ref t =
    if starts_with t "${" && ends_with_brace t
    then some (drop_last (drop_first (drop_first t)))
    else none
