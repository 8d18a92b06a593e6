-- ===== src/Skctl/Scale.antt =====
-- Sizes are printed with a number from 1 to 1024 and its unit.
use mathlib.Core.Path.{subst}
use psychic_funicular.Base.{
  ℕ, zero, suc, ◌+◌, ◌*◌, ◌/◌, ◌^◌, ◌≤◌, ◌<◌, ◌≡◌, refl, sym, if◌then◌else◌, false, String, Option,
  some, [], ◌∷◌, arith, leb, ltb, get_elem?, Bool-cases, inl, inr,
}
use psychic_funicular.Base.Int.{pos, mod64}
use psychic_funicular.Platform.{Platform}
use psychic_funicular.Format.{concat, decimal}
use psychic_funicular.Skctl.Text.{letters, scale, human_bytes, scaled_text}

-- The loop ends with the divisor 1024 ^ (e + 1) that is at most the size, which is less than 1024 times as
-- large; and the exponent has a letter.
Scaled : ℕ → ℕ × ℕ → Type 0
Scaled b (div, e) = (e < 6) × (div ≡ 1024 ^ (e + 1)) × (div ≤ b) × (b < div * 1024)

scale_lem : (b : ℕ) → 1024 ≤ b → b < mod64 → Scaled b (scale 6 (b / 1024) 1024 0)
unfolding Scaled scale
scale_lem b h k = elim (Bool-cases (leb 1024 (b / 1024))) [
  | inr e0 ↦ rw (e0) (omega arith, refl, ground (arith, h, h), ground (arith, e0))
  | inl e0 ↦ elim (Bool-cases (leb 1024 ((b / 1024) / 1024))) [
    | inr e1 ↦ rw (e0, e1) (omega arith, refl, ground (arith, e0, h), ground (arith, e1))
    | inl e1 ↦ elim (Bool-cases (leb 1024 (((b / 1024) / 1024) / 1024))) [
      | inr e2 ↦ rw (e0, e1, e2) (omega arith, refl, ground (arith, e1, h), ground (arith, e2))
      | inl e2 ↦ elim (Bool-cases (leb 1024 ((((b / 1024) / 1024) / 1024) / 1024))) [
        | inr e3 ↦
            rw (e0, e1, e2, e3) (omega arith, refl, ground (arith, e2, h), ground (arith, e3))
        | inl e3 ↦ elim (Bool-cases (leb 1024 (((((b / 1024) / 1024) / 1024) / 1024) / 1024))) [
          | inr e4 ↦
              rw (e0, e1, e2, e3, e4) (omega arith, refl, ground (arith, e3, h), ground (arith, e4))
          | inl e4 ↦
              elim (Bool-cases (leb 1024 ((((((b / 1024) / 1024) / 1024) / 1024) / 1024) / 1024))) [
                | inr e5 ↦
                    rw (e0, e1, e2, e3, e4, e5)
                      (omega arith, refl, ground (arith, e4, h), ground (arith, e5))
                | inl e5 ↦ absurd (ground (arith, e5, k))
              ]
        ]
      ]
    ]
  ]
]

letter_of : (e : ℕ) → e < 6 → (letter : String) × (get_elem? letters e ≡ some letter)
letter_of zero h = (_, refl)
letter_of (suc zero) h = (_, refl)
letter_of (suc (suc zero)) h = (_, refl)
letter_of (suc (suc (suc zero))) h = (_, refl)
letter_of (suc (suc (suc (suc zero)))) h = (_, refl)
letter_of (suc (suc (suc (suc (suc zero))))) h = (_, refl)
letter_of (suc (suc (suc (suc (suc (suc e)))))) h = absurd (omega (arith, h))

-- How a size of at least 1024 bytes is printed.
abbrev pub Shown : Platform → ℕ → Option String → Type 0
Shown p b text =
    (e : ℕ) × (letter : String) × (get_elem? letters e ≡ some letter)
    × (1024 ^ (e + 1) ≤ b)
    × (b < 1024 ^ (e + 1) * 1024)
    × (text
        ≡ some (
            concat (
              p.format_tenth (p.float_div (p.float_of (pos b)) (p.float_of (pos (1024 ^ (e + 1)))))
              ∷ letter
              ∷ "iB"
              ∷ [])))

module _ (p : Platform) where
  scaled_text-Shown : (b : ℕ) (r : ℕ × ℕ) → Scaled b r → Shown p b (scaled_text p b r)
  unfolding scaled_text Scaled
  scaled_text-Shown b (div, e) (small, power, low, high) =
      let (letter, found) = letter_of e small in
      (e, letter, found, rw power at low, rw power at high, rw (found, power) refl)

  large : (b : ℕ) → 1024 ≤ b → ltb b 1024 ≡ false
  large b h = ground (arith, h)

  -- A 64-bit size of at least 1024 bytes is printed as its quotient by 1024 ^ (e + 1), with the letter
  -- number e of KMGTPE and "iB", where the quotient is at least 1 and below 1024; the printing never reads
  -- behind the letters.
  pub human_bytes-Shown : (b : ℕ) → 1024 ≤ b → b < mod64 → Shown p b (human_bytes p b)
  unfolding human_bytes
  human_bytes-Shown b h k =
      subst
        (λ c. Shown p b (
          if c
          then some (concat (decimal b ∷ "B" ∷ []))
          else scaled_text p b (scale 6 (b / 1024) 1024 0)))
        (sym (large b h)) (scaled_text-Shown b (scale 6 (b / 1024) 1024 0) (scale_lem b h k))
