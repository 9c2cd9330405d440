-- ===== src/Stream/Numbers.antt =====
-- The digits that a number is written with.
use faser_common.Common.{
  ℕ, zero, suc, ◌+◌, ◌-◌, ◌/◌, ◌%◌, ◌^◌, ◌≤◌, ◌<◌, ◌≡◌, refl, ap, ◌∙◌, List, [], ◌∷◌, true, false,
  All, arith, ltb, length, lt→ltb, le→ltb_false,
}
use faser_common.Filter.Args.{digits_value}
use faser_common.Stream.{decimal_digits, hex_digits, number_text, digit, decimal, hexadecimal}
use native.Mathlib.Nat.{pow-succ'}
use native.Mathlib.Decide.{dec_lt}

abbrev pub IsDigit : ℕ → Type 0
IsDigit c = (48 ≤ c) × (c ≤ 57)

digit-IsDigit : (d : ℕ) → d < 10 → IsDigit (digit d)
digit-IsDigit d h = (ground arith, ground arith)

digit_value : (d : ℕ) → d < 10 → digit d - 48 ≡ d
digit_value d h = ground arith

module _ (fuel n c : ℕ) (rest : List ℕ) where
  decimal_last : n < 10 → digit n ≡ c → decimal_digits (suc fuel) n rest ≡ c ∷ rest
  unfolding decimal_digits
  decimal_last h e =
      let small : ltb n 10 ≡ true = lt→ltb n 10 h in
      rw (decimal_digits, small) (ap (λ (t : ℕ). t ∷ rest) e)

  decimal_more :
      10 ≤ n
      → digit (n % 10) ≡ c
      → decimal_digits (suc fuel) n rest ≡ decimal_digits fuel (n / 10) (c ∷ rest)
  unfolding decimal_digits
  decimal_more h e =
      let large : ltb n 10 ≡ false = le→ltb_false n 10 h in
      rw (decimal_digits, large) (ap (λ (t : ℕ). decimal_digits fuel (n / 10) (t ∷ rest)) e)

  hex_last : n < 16 → digit n ≡ c → hex_digits (suc fuel) n rest ≡ c ∷ rest
  unfolding hex_digits
  hex_last h e =
      let small : ltb n 16 ≡ true = lt→ltb n 16 h in
      rw (hex_digits, small) (ap (λ (t : ℕ). t ∷ rest) e)

  hex_more :
      16 ≤ n
      → digit (n % 16) ≡ c
      → hex_digits (suc fuel) n rest ≡ hex_digits fuel (n / 16) (c ∷ rest)
  unfolding hex_digits
  hex_more h e =
      let large : ltb n 16 ≡ false = le→ltb_false n 16 h in
      rw (hex_digits, large) (ap (λ (t : ℕ). hex_digits fuel (n / 16) (t ∷ rest)) e)

-- All characters are digits, and there is one at least.
decimal_digits-IsDigit :
    (fuel n : ℕ) (rest : List ℕ)
    → n < fuel
    → All IsDigit rest
    → (c : ℕ) × (cs : List ℕ) × (decimal_digits fuel n rest ≡ c ∷ cs) × All IsDigit (c ∷ cs)
decimal_digits-IsDigit zero n rest h all = absurd (omega arith)
decimal_digits-IsDigit (suc fuel) n rest h all = elim (dec_lt n 10) [
  | yes small ↦
      (digit n, rest, decimal_last fuel n (digit n) rest small refl, (digit-IsDigit n small, all))
  | no large ↦
      let (c, cs, e, digits) =
        decimal_digits-IsDigit fuel (n / 10) (digit (n % 10) ∷ rest) (omega arith)
          (digit-IsDigit (n % 10) (omega arith), all) in
      (c, cs, decimal_more fuel n (digit (n % 10)) rest (omega arith) refl ∙ e, digits)
]

digits_value-decimal_digits :
    (fuel n : ℕ) (rest : List ℕ)
    → n < fuel
    → digits_value 0 (decimal_digits fuel n rest) ≡ digits_value n rest
unfolding digits_value
digits_value-decimal_digits zero n rest h = absurd (omega arith)
digits_value-decimal_digits (suc fuel) n rest h = elim (dec_lt n 10) [
  | yes small ↦
      ap (digits_value 0) (decimal_last fuel n (digit n) rest small refl)
      ∙ ap (λ (t : ℕ). digits_value t rest) (omega (arith, digit_value n small))
  | no large ↦
      ap (digits_value 0) (decimal_more fuel n (digit (n % 10)) rest (omega arith) refl)
      ∙ digits_value-decimal_digits fuel (n / 10) (digit (n % 10) ∷ rest) (omega arith)
      ∙ ap (λ (t : ℕ). digits_value t rest) (omega (arith, digit_value (n % 10) (omega arith)))
]

pub number_text-IsDigit :
    (n : ℕ) → (c : ℕ) × (cs : List ℕ) × (number_text decimal n ≡ c ∷ cs) × All IsDigit (c ∷ cs)
unfolding number_text
number_text-IsDigit n = decimal_digits-IsDigit (suc n) n [] (omega arith) tt

pub digits_value-number_text : (n : ℕ) → digits_value 0 (number_text decimal n) ≡ n
unfolding number_text digits_value
digits_value-number_text n = digits_value-decimal_digits (suc n) n [] (omega arith)

-- A number of `k` hexadecimal digits has no more of them.
hex_digits-length :
    (k fuel n : ℕ) (rest : List ℕ)
    → n < 16 ^ suc k
    → n < fuel
    → length (hex_digits fuel n rest) ≤ suc k + length rest
hex_digits-length k zero n rest fit h = absurd (omega arith)
hex_digits-length zero (suc fuel) n rest fit h =
    omega (arith, ap length (hex_last fuel n (digit n) rest (omega arith) refl))
hex_digits-length (suc k) (suc fuel) n rest fit h = elim (dec_lt n 16) [
  | yes small ↦ omega (arith, ap length (hex_last fuel n (digit n) rest small refl))
  | no large ↦
      let same = ap length (hex_more fuel n (digit (n % 16)) rest (omega arith) refl) in
      let more =
        hex_digits-length k fuel (n / 16) (digit (n % 16) ∷ rest)
          (omega (arith, pow-succ' 16 (suc k))) (omega arith) in
      omega (arith, same, more)
]

pub length-number_text_hex : (k n : ℕ) → n < 16 ^ suc k → length (number_text hexadecimal n) ≤ suc k
unfolding number_text
length-number_text_hex k n fit = omega (arith, hex_digits-length k (suc n) n [] fit (omega arith))
