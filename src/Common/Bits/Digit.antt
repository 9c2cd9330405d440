-- ===== src/Common/Bits/Digit.antt =====
-- The binary digits of a word.
use Prim.Native.Nat.{ℕ, zero, suc, ◌/◌, ◌%◌, ◌^◌, ◌<◌, ◌≤◌, max, bit_or}
use mathlib.Core.Path.{◌≡◌, ap, ap₂, ◌∙◌, sym}
use native.Mathlib.Nat.{pow-succ', pow-le-pow_right, div-eq_of_lt, one-le-pow, div-div-eq-div-mul}
use native.Mathlib.Omega.{arith}
use faser_common.Common.Bits.{mod_suc}
use faser_common.Common.Bits.Step.{bit_or_step}

-- Digit `k`, 0 or 1.
abbrev pub bit : ℕ → ℕ → ℕ
bit k w = w / 2 ^ k % 2

-- The digit behind the lowest ones.
bit-suc : (k w : ℕ) → bit (suc k) w ≡ bit k (w / 2)
bit-suc k w = rw (div-div-eq-div-mul, pow-succ')

half_or : (a b : ℕ) → bit_or a b / 2 ≡ bit_or (a / 2) (b / 2)
half_or a b = omega (arith, bit_or_step a b)

-- A digit of `|` is up where one of the two is.
pub bit-bit_or : (k a b : ℕ) → bit k (bit_or a b) ≡ max (bit k a) (bit k b)
bit-bit_or zero a b = omega (arith, bit_or_step a b)
bit-bit_or (suc k) a b =
    bit-suc k (bit_or a b)
    ∙ ap (bit k) (half_or a b)
    ∙ bit-bit_or k (a / 2) (b / 2)
    ∙ ap₂ max (sym (bit-suc k a)) (sym (bit-suc k b))

-- A cut to `n` digits keeps these.
pub bit-mod_below : (n k w : ℕ) → k < n → bit k (w % 2 ^ n) ≡ bit k w
bit-mod_below zero k w h = absurd (omega arith)
bit-mod_below (suc n) zero w h = omega (arith, mod_suc n w)
bit-mod_below (suc n) (suc k) w h =
    let half : w % 2 ^ suc n / 2 ≡ w / 2 % 2 ^ n = omega (arith, mod_suc n w) in
    bit-suc k (w % 2 ^ suc n)
    ∙ ap (bit k) half
    ∙ bit-mod_below n k (w / 2) (omega arith)
    ∙ sym (bit-suc k w)

-- and no others.
pub bit-mod_above : (n k w : ℕ) → n ≤ k → bit k (w % 2 ^ n) ≡ 0
bit-mod_above n k w h =
    let room : 2 ^ n ≤ 2 ^ k = pow-le-pow_right (omega arith) h in
    let small : w % 2 ^ n < 2 ^ n = omega (arith, one-le-pow n 2) in
    let none : w % 2 ^ n / 2 ^ k ≡ 0 = div-eq_of_lt (omega arith) in omega (arith, none)
