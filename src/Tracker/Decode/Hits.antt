-- ===== src/Tracker/Decode/Hits.antt =====
-- A packet of hits, bit by bit, and the hits that are made of it.
use faser_common.Common.{
  ℕ, zero, suc, ◌+◌, ◌*◌, ◌/◌, ◌%◌, ◌^◌, ◌≤◌, ◌<◌, ◌≡◌, ap, ◌∙◌, List, [], ◌∷◌, ◌++◌, All, arith,
}
use native.Mathlib.Nat.{pow-succ', mul_assoc, one-le-pow}
use faser_common.Common.Words.{u32}
use faser_common.Tracker.Bitstream.Shift.{shifted, bits_of, add_mul, mul_pull}
use faser_common.Tracker.Bitstream.Contract.{first_word}
use faser_common.Tracker.Decode.{has_leading_bit, is_trailer}
use faser_common.Common.{◌⊎◌, true, false}

abbrev pub IsBit : ℕ → Type 0
IsBit b = b < 2

-- The bits of the hits of a packet: a leading 1 and three bits of the pattern each.
abbrev pub hit_bits : List ℕ → List ℕ
hit_bits [] = []
hit_bits (p ∷ ps) = 1 ∷ (bits_of 3 p ++ hit_bits ps)

-- A pattern of a hit; with none of its bits it could begin a trailer.
abbrev pub IsPattern : ℕ → Type 0
IsPattern p = (1 ≤ p) × (p < 8)

-- What follows the hits does not begin with a leading 1.
abbrev pub NoHit : List ℕ → Type 0
NoHit [] = Unit {0}
NoHit (b ∷ bs) = (b ≡ 0) × All IsBit bs

-- What follows the hits ends them: no leading 1, or a trailer.
abbrev pub Ends : List ℕ → Type 0
Ends rest =
    All IsBit rest
    × ((has_leading_bit (first_word rest) ≡ false)
        ⊎ ((has_leading_bit (first_word rest) ≡ true) × (is_trailer (first_word rest) ≡ true)))

le_mul : (b p : ℕ) → 1 ≤ p → b ≤ b * p
le_mul b p h = grind arith

-- The register and the next bit, shifted on.
next_high :
    (n b x : ℕ)
    → x < 2
    → b * 2 ^ suc n + 2 ^ suc n ≤ 2 ^ 32
    → ((2 * b + x) * 2 ^ n ≡ b * 2 ^ suc n + x * 2 ^ n)
      × ((2 * b + x) * 2 ^ n + 2 ^ n ≤ 2 ^ 32)
      × (u32 (2 * b + x) ≡ 2 * b + x)
      × (x * 2 ^ n + 2 ^ n ≤ 2 ^ suc n)
next_high n b x small room =
    let p : ℕ = 2 ^ n in
    let double : 2 ^ suc n ≡ 2 * p = pow-succ' 2 n in
    let spread : (2 * b + x) * p ≡ b * 2 ^ suc n + x * p =
      omega (
        arith,
        add_mul (2 * b) x p,
        mul_assoc 2 b p,
        mul_pull b 2 p,
        ap (λ (t : ℕ). b * t) double,
      ) in
    let bit : x * p + p ≤ 2 * p = one_bit x p small in
    let pos : 1 ≤ p = one-le-pow n 2 (omega arith) in
    let fits : (2 * b + x) * p + p ≤ 2 ^ 32 = omega arith in
    let narrow : 2 * b + x < 2 ^ 32 = omega (arith, le_mul (2 * b + x) p pos) in
    (spread, fits, omega arith, omega arith)
  where
    one_bit : (x p : ℕ) → x < 2 → x * p + p ≤ 2 * p
    one_bit zero p h = omega arith
    one_bit (suc zero) p h = omega arith
    one_bit (suc (suc x)) p h = absurd (omega arith)

-- The high bits of the register stay while `n` bits are shifted in.
pub shifted_high :
    (n b : ℕ) (xs : List ℕ)
    → All IsBit xs
    → b * 2 ^ n + 2 ^ n ≤ 2 ^ 32
    → (r : ℕ) × (r < 2 ^ n) × (shifted n b xs ≡ b * 2 ^ n + r)
unfolding shifted
shifted_high zero b xs bits room = (0, omega arith, omega arith)
shifted_high (suc n) b [] bits room =
    let (spread, fits, same, bit) = next_high n b 0 (omega arith) room in
    let plain : u32 (2 * b) ≡ 2 * b + 0 = omega (arith, same) in
    let (r, small, e) = shifted_high n (2 * b + 0) [] tt fits in
    (r, omega arith, ap (λ (t : ℕ). shifted n t []) plain ∙ e ∙ omega arith)
shifted_high (suc n) b (x ∷ xs) bits room =
    let (spread, fits, same, bit) = next_high n b x bits.0 room in
    let (r, small, e) = shifted_high n (2 * b + x) xs bits.1 fits in
    (x * 2 ^ n + r, omega arith, ap (λ (t : ℕ). shifted n t xs) same ∙ e ∙ omega arith)

-- The window at a hit: its four high bits.
pub window_at_hit :
    (p : ℕ) (rest : List ℕ)
    → p < 8
    → All IsBit rest
    → (r : ℕ) × (r < 2 ^ 28) × (first_word (1 ∷ (bits_of 3 p ++ rest)) ≡ (8 + p) * 2 ^ 28 + r)
unfolding shifted
window_at_hit p rest h bits =
    let four : u32
          (2 * u32 (2 * u32 (2 * u32 (2 * 0 + 1) + p / 2 ^ 2 % 2) + p / 2 ^ 1 % 2) + p / 2 ^ 0 % 2)
        ≡ 8 + p =
      omega arith in
    let (r, small, e) = shifted_high 28 (8 + p) rest bits (omega arith) in
    (r, small, ap (λ (t : ℕ). shifted 28 t rest) four ∙ e)
