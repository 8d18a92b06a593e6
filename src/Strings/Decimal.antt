-- ===== src/Strings/Decimal.antt =====
-- The decimal text of a number is read back as it.
use Prim.Native.Char.{code}
use Prim.Native.String.{◌++◌ as text_append}
use text.Mathlib.TextLemmas.{cons-append, nil-append}
use mathlib.Core.Path.{subst}
use psychic_funicular.Base.{
  ℕ, zero, suc, ◌+◌, ◌-◌, ◌*◌, ◌/◌, ◌%◌, ◌≤◌, ◌<◌, ◌≡◌, refl, ap, ◌∙◌, Bool, true, false, ◌&&◌,
  String, Option, none, some, arith, leb, ltb, Bool-cases, inl, inr,
}
use psychic_funicular.Base.Int.{mod64}
use psychic_funicular.Format.{decimal, decimal_lem, digit}
use psychic_funicular.Strings.{is_empty}
use psychic_funicular.Strings.Numbers.{digits_value, number_below, parse_uint, below}

-- Digits only.
unfoldable pub all_digits : String → Bool
all_digits String.[] = true
all_digits (String.◌∷◌ c s) = leb b'0' (code c) && leb (code c) b'9' && all_digits s

-- What a value becomes behind the digits of a text.
abbrev then_digits : Option ℕ → String → Option ℕ
then_digits none t = none
then_digits (some a) t = digits_value a t

digits_append :
    (a : ℕ) (s t : String) → digits_value a (text_append s t) ≡ then_digits (digits_value a s) t
unfolding digits_value
digits_append a String.[] t = ap (digits_value a) (nil-append t)
digits_append a (String.◌∷◌ c s) t = elim (Bool-cases (leb b'0' (code c) && leb (code c) b'9')) [
  | inl e ↦ rw (cons-append c s t, e) (digits_append (a * 10 + (code c - b'0')) s t)
  | inr e ↦ rw (cons-append c s t, e) refl
]

-- Every digit, by cases.
module _ {ℓ} (P : ℕ → Type ℓ) where
  digit-cases : P 0 → P 1 → P 2 → P 3 → P 4 → P 5 → P 6 → P 7 → P 8 → P 9 → (d : ℕ) → d < 10 → P d
  digit-cases p0 p1 p2 p3 p4 p5 p6 p7 p8 p9 zero h = p0
  digit-cases p0 p1 p2 p3 p4 p5 p6 p7 p8 p9 (suc zero) h = p1
  digit-cases p0 p1 p2 p3 p4 p5 p6 p7 p8 p9 (suc (suc zero)) h = p2
  digit-cases p0 p1 p2 p3 p4 p5 p6 p7 p8 p9 (suc (suc (suc zero))) h = p3
  digit-cases p0 p1 p2 p3 p4 p5 p6 p7 p8 p9 (suc (suc (suc (suc zero)))) h = p4
  digit-cases p0 p1 p2 p3 p4 p5 p6 p7 p8 p9 (suc (suc (suc (suc (suc zero))))) h = p5
  digit-cases p0 p1 p2 p3 p4 p5 p6 p7 p8 p9 (suc (suc (suc (suc (suc (suc zero)))))) h = p6
  digit-cases p0 p1 p2 p3 p4 p5 p6 p7 p8 p9 (suc (suc (suc (suc (suc (suc (suc zero))))))) h = p7
  digit-cases p0 p1 p2 p3 p4 p5 p6 p7 p8 p9 (suc (suc (suc (suc (suc (suc (suc (suc zero)))))))) h =
      p8
  digit-cases p0 p1 p2 p3 p4 p5 p6 p7 p8 p9
        (suc (suc (suc (suc (suc (suc (suc (suc (suc zero))))))))) h =
      p9
  digit-cases p0 p1 p2 p3 p4 p5 p6 p7 p8 p9
        (suc (suc (suc (suc (suc (suc (suc (suc (suc (suc d)))))))))) h =
      absurd (omega (arith, h))

digit_value : (a d : ℕ) → d < 10 → digits_value a (digit d) ≡ some (a * 10 + d)
unfolding digits_value
digit_value a =
    digit-cases (λ d. digits_value a (digit d) ≡ some (a * 10 + d)) refl refl refl refl refl refl
      refl refl refl refl

digit_is_digit : (d : ℕ) → d < 10 → all_digits (digit d) ≡ true
unfolding all_digits
digit_is_digit =
    digit-cases (λ d. all_digits (digit d) ≡ true) refl refl refl refl refl refl refl refl refl refl

all_digits_append :
    (s t : String) → all_digits s ≡ true → all_digits t ≡ true → all_digits (text_append s t) ≡ true
unfolding all_digits
all_digits_append String.[] t h k = rw (nil-append t) k
all_digits_append (String.◌∷◌ c s) t h k =
    rw (cons-append c s t) (ground (arith, h, all_digits_append s t (ground (arith, h)) k))

below_ten : (n : ℕ) → n < 10 → ltb n 10 ≡ true
below_ten n h = ground (arith, h)

tens : (n : ℕ) → n / 10 * 10 + n % 10 ≡ n
tens n = omega arith

-- What holds of the digits, and is kept by one more digit, holds of the text of a number.
module _ (P : ℕ → String → Type 0) where
  decimal_induction :
      ((d : ℕ) → d < 10 → P d (digit d))
      → ((n d : ℕ) (s : String) → d < 10 → P n s → P (n * 10 + d) (text_append s (digit d)))
      → (fuel n : ℕ) → n ≤ fuel
      → P n (decimal n)
  decimal_induction base step zero n h =
      rw (decimal_lem n, below_ten n (omega (arith, h))) (base n (omega (arith, h)))
  decimal_induction base step (suc fuel) n h = elim (Bool-cases (ltb n 10)) [
    | inl e ↦ rw (decimal_lem n, e) (base n (ground (arith, e)))
    | inr e ↦
        let front = decimal_induction base step fuel (n / 10) (ground (arith, e, h)) in
        rw (decimal_lem n, e)
          (subst (λ m. P m (text_append (decimal (n / 10)) (digit (n % 10)))) (tens n)
            (step (n / 10) (n % 10) (decimal (n / 10)) (omega arith) front))
  ]

pub decimal_digits : (n : ℕ) → all_digits (decimal n) ≡ true
decimal_digits n =
    decimal_induction (λ m s. all_digits s ≡ true) digit_is_digit
      (λ m d s h k. all_digits_append s (digit d) k (digit_is_digit d h)) n n (omega arith)

decimal_value : (n : ℕ) → digits_value 0 (decimal n) ≡ some n
decimal_value n =
    decimal_induction (λ m s. digits_value 0 s ≡ some m)
      (λ d h. digit_value 0 d h ∙ ap some (omega arith))
      (λ m d s h k.
        digits_append 0 s (digit d) ∙ ap (λ v. then_digits v (digit d)) k ∙ digit_value m d h)
      n n (omega arith)

not_empty_append : (s t : String) → is_empty s ≡ false → is_empty (text_append s t) ≡ false
not_empty_append String.[] t h = absurd (ground (arith, h))
not_empty_append (String.◌∷◌ c s) t h = rw (cons-append c s t) refl

pub decimal_not_empty : (n : ℕ) → is_empty (decimal n) ≡ false
decimal_not_empty n =
    decimal_induction (λ m s. is_empty s ≡ false)
      (digit-cases (λ d. is_empty (digit d) ≡ false) refl refl refl refl refl refl refl refl refl
        refl)
      (λ m d s h k. not_empty_append s (digit d) k) n n (omega arith)

below_lem : (bound n : ℕ) → n < bound → below bound (some n) ≡ some n
below_lem bound n h = ground (arith, h)

number_of_value :
    (bound n : ℕ) (s : String)
    → digits_value 0 s ≡ some n
    → is_empty s ≡ false
    → n < bound
    → number_below bound s ≡ some n
unfolding number_below
number_of_value bound n String.[] h ne lt = absurd (ground (arith, ne))
number_of_value bound n (String.◌∷◌ c s) h ne lt = ap (below bound) h ∙ below_lem bound n lt

-- strconv.ParseUint reads the decimal text of a 64-bit number back.
pub parse_uint-decimal : (n : ℕ) → n < mod64 → parse_uint (decimal n) ≡ some n
unfolding parse_uint
parse_uint-decimal n h =
    number_of_value mod64 n (decimal n) (decimal_value n) (decimal_not_empty n) h
