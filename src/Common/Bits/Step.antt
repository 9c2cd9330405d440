-- ===== src/Common/Bits/Step.antt =====
-- Native bit operations, one binary digit at a time: the recursion that they stand for counts
-- its rounds, and rounds to spare change nothing.
use Prim.Native.Nat.{ℕ, zero, suc, ◌+◌, ◌*◌, ◌/◌, ◌%◌, ◌≤◌, bit_and, bit_or}
use Prim.Native.Nat.{bitwise, digits, min, max, bit_or-bitwise, bit_and-bitwise}
use mathlib.Core.Path.{◌≡◌, refl, ap}
use native.Mathlib.Omega.{arith}

-- A digit operation, and what it gives when the first number has no digits left.
module _ (op : ℕ → ℕ → ℕ) (rest : ℕ → ℕ) where
  spare_rounds :
      (more rounds x y : ℕ)
      → rounds ≤ more
      → x ≤ rounds
      → digits rest op more x y ≡ digits rest op rounds x y
  spare_rounds zero zero x y le h = refl
  spare_rounds zero (suc rounds) x y le h = absurd (omega arith)
  spare_rounds (suc more) zero zero y le h = refl
  spare_rounds (suc more) zero (suc x) y le h = absurd (omega arith)
  spare_rounds (suc more) (suc rounds) zero y le h = refl
  spare_rounds (suc more) (suc rounds) (suc x) y le h =
      ap (λ t. t * 2 + op (suc x % 2) (y % 2))
        (spare_rounds more rounds (suc x / 2) (y / 2) (omega arith) (omega arith))

  exact_rounds :
      (x y : ℕ) → digits rest op x (suc x / 2) (y / 2) ≡ bitwise rest op (suc x / 2) (y / 2)
  exact_rounds x y = spare_rounds x (suc x / 2) (suc x / 2) (y / 2) (omega arith) (omega arith)

  first_digit :
      (x y : ℕ)
      → bitwise rest op (suc x) y ≡ bitwise rest op (suc x / 2) (y / 2) * 2 + op (suc x % 2) (y % 2)
  first_digit x y = ap (λ t. t * 2 + op (suc x % 2) (y % 2)) (exact_rounds x y)

pub bit_and_step : (x y : ℕ) → bit_and x y ≡ min (x % 2) (y % 2) + 2 * bit_and (x / 2) (y / 2)
bit_and_step zero y = simp bit_and-bitwise (omega arith)
bit_and_step (suc x) y = simp bit_and-bitwise (omega (arith, first_digit min (λ d. 0) x y))

pub bit_or_step : (x y : ℕ) → bit_or x y ≡ max (x % 2) (y % 2) + 2 * bit_or (x / 2) (y / 2)
bit_or_step zero y = simp bit_or-bitwise (omega arith)
bit_or_step (suc x) y = simp bit_or-bitwise (omega (arith, first_digit max (λ d. d) x y))
