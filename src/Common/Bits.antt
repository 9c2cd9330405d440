-- ===== src/Common/Bits.antt =====
-- `&` and `|` on unsigned words as arithmetic.
pub mod Step
pub mod Digit
pub mod Fields
use Step.{bit_or_step, bit_and_step}
use Prim.Native.Nat.{
  ℕ, zero, suc, ◌+◌, ◌-◌, ◌*◌, ◌/◌, ◌%◌, ◌^◌, ◌<◌, ◌≤◌, min, max, bit_and, bit_or,
}
use mathlib.Core.Path.{◌≡◌, refl, ap, ◌∙◌}
use native.Mathlib.Nat.{pow-suc, pow-succ', one-le-pow, div-div-eq-div-mul}
use native.Mathlib.Omega.{arith}

-- A word and no digits at all, by the number of digits.
or_zero_upto : (bound w : ℕ) → w ≤ bound → bit_or w 0 ≡ w
or_zero_upto bound zero h = refl
or_zero_upto zero (suc w) h = absurd (omega arith)
or_zero_upto (suc bound) (suc w) h =
    let others = or_zero_upto bound (suc w / 2) (omega arith) in
    omega (others, bit_or_step (suc w) 0, arith)

pub bit_or-zero : (w : ℕ) → bit_or w 0 ≡ w
bit_or-zero w = or_zero_upto w w (omega arith)

and_zero_upto : (bound w : ℕ) → w ≤ bound → bit_and w 0 ≡ 0
and_zero_upto bound zero h = refl
and_zero_upto zero (suc w) h = absurd (omega arith)
and_zero_upto (suc bound) (suc w) h =
    let others = and_zero_upto bound (suc w / 2) (omega arith) in
    omega (others, bit_and_step (suc w) 0, arith)

pub bit_and-zero : (w : ℕ) → bit_and w 0 ≡ 0
bit_and-zero w = and_zero_upto w w (omega arith)

pub double_shift : (high n : ℕ) → 2 * (high * 2 ^ n) ≡ high * 2 ^ suc n
double_shift high n = omega (arith, ap (λ (p : ℕ). high * p) (pow-suc 2 n))

-- `|` of a word whose low `n` bits are clear and a word of `n` bits is a sum.
pub bit_or_fields : (n high low : ℕ) → low < 2 ^ n → bit_or (high * 2 ^ n) low ≡ high * 2 ^ n + low
bit_or_fields zero high low h = ground (bit_or-zero high, arith)
bit_or_fields (suc n) high low h =
    let halves = bit_or_fields n high (low / 2) (omega arith) in
    ground (double_shift high n, bit_or_step (high * 2 ^ suc n) low, halves, arith)

-- `&` with the mask of the `n` low bits leaves these.
low_field : (n high low : ℕ) → low < 2 ^ n → bit_and (high * 2 ^ n + low) (2 ^ n - 1) ≡ low
low_field zero high low h = ground (bit_and-zero (high * 1 + low), arith)
low_field (suc n) high low h =
    let halves = low_field n high (low / 2) (omega arith) in
    let digit = bit_and_step (high * 2 ^ suc n + low) (2 ^ suc n - 1) in
    ground (digit, halves, double_shift high n, one-le-pow n 2, pow-suc 2 n, arith)

pub bit_and_mask : (n w : ℕ) → bit_and w (2 ^ n - 1) ≡ w % 2 ^ n
bit_and_mask n w =
    let parts = low_field n (w / 2 ^ n) (w % 2 ^ n) in ground (parts, one-le-pow n 2, arith)

div-two-pow-suc : (a k : ℕ) → a / 2 / 2 ^ k ≡ a / 2 ^ suc k
div-two-pow-suc a k = rw (div-div-eq-div-mul, pow-succ')

-- A shifted mask.
pub bit_and_shift : (k a m : ℕ) → bit_and a (m * 2 ^ k) ≡ bit_and (a / 2 ^ k) m * 2 ^ k
bit_and_shift zero a m = ground arith
bit_and_shift (suc k) a m = ground (
  arith,
  bit_and_step a (m * 2 ^ suc k),
  double_shift m k,
  double_shift (bit_and (a / 2 ^ suc k) m) k,
  ap (λ (t : ℕ). bit_and t m * 2 ^ k) (div-two-pow-suc a k),
  bit_and_shift k (a / 2) m,
)

-- A mask of `j` bits from bit `k` on.
pub bit_and_shifted : (k j a : ℕ) → bit_and a ((2 ^ j - 1) * 2 ^ k) ≡ a / 2 ^ k % 2 ^ j * 2 ^ k
bit_and_shifted k j a = rw (bit_and_shift k a (2 ^ j - 1), bit_and_mask j (a / 2 ^ k))

half_lt : (k a : ℕ) → a < 2 ^ suc k → a / 2 < 2 ^ k
half_lt k a h = omega (arith, pow-suc 2 k)

-- `|` stays within the width of its operands.
pub bit_or-lt : (k a b : ℕ) → a < 2 ^ k → b < 2 ^ k → bit_or a b < 2 ^ k
bit_or-lt zero a b ha hb = ground (arith, bit_or-zero 0)
bit_or-lt (suc k) a b ha hb = omega (
  arith,
  bit_or_step a b,
  pow-suc 2 k,
  bit_or-lt k (a / 2) (b / 2) (half_lt k a ha) (half_lt k b hb),
)

-- The remainder of a number given by its lowest digit and the others.
double_mod : (x m p : ℕ) → m < 2 → 0 < p → (x * 2 + m) % (2 * p) ≡ x % p * 2 + m
double_mod x m p h k = grind arith

pub mod_suc : (k a : ℕ) → a % 2 ^ suc k ≡ a / 2 % 2 ^ k * 2 + a % 2
mod_suc k a =
    let whole : a ≡ a / 2 * 2 + a % 2 = omega arith in
    ap (λ (t : ℕ). t % 2 ^ suc k) whole
    ∙ ap (λ (t : ℕ). (a / 2 * 2 + a % 2) % t) (pow-succ' 2 k)
    ∙ double_mod (a / 2) (a % 2) (2 ^ k) (omega arith) (omega (arith, one-le-pow k 2))

halves : (x m : ℕ) → m < 2 → ((x * 2 + m) / 2 ≡ x) × ((x * 2 + m) % 2 ≡ m)
halves x m h = omega arith

-- `|` digit by digit, for the low `k` digits.
pub bit_or-mod : (k a b : ℕ) → bit_or a b % 2 ^ k ≡ bit_or (a % 2 ^ k) (b % 2 ^ k)
bit_or-mod zero a b =
    let ea : a % 1 ≡ 0 = omega arith in
    let eb : b % 1 ≡ 0 = omega arith in rw (ea, eb) (omega arith)
bit_or-mod (suc k) a b =
    rw (mod_suc k a, mod_suc k b)
      (ground (
        arith,
        bit_or_step a b,
        mod_suc k (bit_or a b),
        bit_or_step (a / 2 % 2 ^ k * 2 + a % 2) (b / 2 % 2 ^ k * 2 + b % 2),
        halves (a / 2 % 2 ^ k) (a % 2) (omega arith),
        halves (b / 2 % 2 ^ k) (b % 2) (omega arith),
        halves (bit_or (a / 2) (b / 2)) (max (a % 2) (b % 2)) (omega arith),
        bit_or-mod k (a / 2) (b / 2),
      ))
