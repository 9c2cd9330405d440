-- ===== src/Common/Bits/Fields.antt =====
-- `&` on words of two fields.
use faser_common.Common.{ℕ, zero, suc, ◌+◌, ◌*◌, ◌/◌, ◌^◌, ◌<◌, ◌≤◌, ◌≡◌, refl, bit_and, arith}
use native.Mathlib.Nat.{pow-suc}
use faser_common.Common.Bits.{bit_and-zero, double_shift}
use faser_common.Common.Bits.Step.{bit_and_step}

zero_and : (bound w : ℕ) → w ≤ bound → bit_and 0 w ≡ 0
zero_and bound zero h = refl
zero_and zero (suc w) h = absurd (omega arith)
zero_and (suc bound) (suc w) h =
    omega (arith, bit_and_step 0 (suc w), zero_and bound (suc w / 2) (omega arith))

pub bit_and_fields :
    (k a b x y : ℕ)
    → x < 2 ^ k
    → y < 2 ^ k
    → bit_and (a * 2 ^ k + x) (b * 2 ^ k + y) ≡ bit_and a b * 2 ^ k + bit_and x y
bit_and_fields zero a b x y hx hy =
    let ex : x ≡ 0 = omega arith in
    let ey : y ≡ 0 = omega arith in rw (ex, ey) (ground (arith, bit_and-zero 0))
bit_and_fields (suc k) a b x y hx hy =
    let halves =
      bit_and_fields k a b (x / 2) (y / 2) (omega (arith, pow-suc 2 k))
        (omega (arith, pow-suc 2 k)) in
    ground (
      double_shift a k,
      double_shift b k,
      double_shift (bit_and a b) k,
      bit_and_step (a * 2 ^ suc k + x) (b * 2 ^ suc k + y),
      bit_and_step x y,
      halves,
      arith,
    )

pub bit_and-lt : (k x y : ℕ) → x < 2 ^ k → bit_and x y < 2 ^ k
bit_and-lt zero x y h =
    let e : x ≡ 0 = omega arith in rw e (omega (arith, zero_and y y (omega arith)))
bit_and-lt (suc k) x y h = omega (
  arith,
  bit_and_step x y,
  pow-suc 2 k,
  bit_and-lt k (x / 2) (y / 2) (omega (arith, pow-suc 2 k)),
)
