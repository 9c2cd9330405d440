-- ===== src/Tracker/Bitstream/Shift.antt =====
-- A shift register of 32 bits: what the window of the stream should be.
use faser_common.Common.{
  ℕ, zero, suc, ◌+◌, ◌-◌, ◌*◌, ◌/◌, ◌%◌, ◌^◌, ◌≤◌, ◌<◌, ◌≡◌, refl, sym, ap, ◌∙◌, List, [], ◌∷◌,
  ◌++◌, length, drop, arith,
}
use faser_common.Common.{bit_or, drop-nil}
use faser_common.Common.Bits.{bit_or_fields}
use faser_common.Common.Words.{u32}
use native.Mathlib.Nat.{
  pow-succ', one-le-pow, div-div-eq-div-mul, mul_assoc, mul_comm, mod-add-div,
  mul-add-mod_self_left, mod-eq_of_lt, mod-lt,
}

-- The `k` low bits of a word, the highest first.
abbrev pub bits_of : ℕ → ℕ → List ℕ
bits_of zero v = []
bits_of (suc k) v = (v / 2 ^ k % 2) ∷ bits_of k v

-- The register after `n` bits were shifted in, zeros where none are left.
unfoldable pub shifted : ℕ → ℕ → List ℕ → ℕ
shifted zero b xs = b
shifted (suc n) b [] = shifted n (u32 (2 * b)) []
shifted (suc n) b (x ∷ xs) = shifted n (u32 (2 * b + x)) xs

pub pow_add : (m n : ℕ) → 2 ^ (m + n) ≡ 2 ^ m * 2 ^ n
pow_add zero n = let e : 0 + n ≡ n = omega arith in ap (λ (k : ℕ). 2 ^ k) e ∙ omega arith
pow_add (suc m) n =
    let e : suc m + n ≡ suc (m + n) = omega arith in
    ap (λ (k : ℕ). 2 ^ k) e
    ∙ pow-succ' 2 (m + n)
    ∙ ap (λ (t : ℕ). 2 * t) (pow_add m n)
    ∙ sym (mul_assoc 2 (2 ^ m) (2 ^ n))
    ∙ ap (λ (t : ℕ). t * 2 ^ n) (sym (pow-succ' 2 m))

mul_swap : (q p d : ℕ) → q * p * d ≡ q * d * p
mul_swap q p d = grind arith

mul_room : (r q p : ℕ) → r < q → r * p + p ≤ q * p
mul_room r q p h = grind arith

pub mul_pull : (a b p : ℕ) → a * (b * p) ≡ b * (a * p)
mul_pull a b p = grind arith

pub add_mul : (a b p : ℕ) → (a + b) * p ≡ a * p + b * p
add_mul a b p = grind arith

-- A field of a product.
pub field_mod : (a p q x : ℕ) → x < p → 0 < q → (a * p + x) % (q * p) ≡ a % q * p + x
field_mod a p q x h hq =
    let split : a * p + x ≡ q * p * (a / q) + (a % q * p + x) = omega (
      arith,
      ap (λ (t : ℕ). t * p) (mod-add-div a q),
      mul_swap q p (a / q),
      add_mul (a % q) (q * (a / q)) p,
    ) in
    let small : a % q * p + x < q * p = omega (arith, mul_room (a % q) q p (mod-lt a hq)) in
    ap (λ (t : ℕ). t % (q * p)) split
    ∙ mul-add-mod_self_left (q * p) (a / q) (a % q * p + x)
    ∙ mod-eq_of_lt small

-- A wrap-around inside of a wrap-around.
pub wrap_inside : (c p y m : ℕ) → 0 < m → (c % m * p + y) % m ≡ (c * p + y) % m
wrap_inside c p y m hm =
    let split : c * p + y ≡ m * (c / m * p) + (c % m * p + y) = omega (
      arith,
      ap (λ (t : ℕ). t * p) (mod-add-div c m),
      add_mul (c % m) (m * (c / m)) p,
      mul_assoc m (c / m) p,
    ) in
    sym (ap (λ (t : ℕ). t % m) split ∙ mul-add-mod_self_left m (c / m * p) (c % m * p + y))

div_split : (v n k : ℕ) → v / 2 ^ (n + k) ≡ v / 2 ^ k / 2 ^ n
div_split v n k =
    let e : n + k ≡ k + n = omega arith in
    ap (λ (t : ℕ). v / 2 ^ t) e
    ∙ ap (λ (t : ℕ). v / t) (pow_add k n)
    ∙ sym (div-div-eq-div-mul v (2 ^ k) (2 ^ n))

-- The remainder of `t` by its bit `n` and the bits below.
mod_split : (t n : ℕ) → t % 2 ^ suc n ≡ t / 2 ^ n % 2 * 2 ^ n + t % 2 ^ n
mod_split t n =
    let p : ℕ = 2 ^ n in
    let whole : t ≡ t / p * p + t % p = omega (arith, mod-add-div t p, mul_comm p (t / p)) in
    ap (λ (m : ℕ). t % m) (pow-succ' 2 n)
    ∙ ap (λ (u : ℕ). u % (2 * p)) whole
    ∙ field_mod (t / p) p 2 (t % p) (mod-lt t (one-le-pow n 2 (omega arith))) (omega arith)

pub next_nil : (n b : ℕ) → u32 (u32 (2 * b) * 2 ^ n) ≡ u32 (b * 2 ^ suc n)
next_nil n b =
    let e : 2 * b * 2 ^ n ≡ b * 2 ^ suc n =
      omega (
        arith,
        ap (λ (t : ℕ). b * t) (pow-succ' 2 n),
        mul_assoc 2 b (2 ^ n),
        mul_pull b 2 (2 ^ n),
      ) in
    let z : u32 (2 * b) * 2 ^ n + 0 ≡ u32 (2 * b) * 2 ^ n = omega arith in
    let z' : 2 * b * 2 ^ n + 0 ≡ b * 2 ^ suc n = omega (arith, e) in
    ap u32 (sym z) ∙ wrap_inside (2 * b) (2 ^ n) 0 (2 ^ 32) (omega arith) ∙ ap u32 z'

pub shifted-nil : (n b : ℕ) → b < 2 ^ 32 → shifted n b [] ≡ u32 (b * 2 ^ n)
unfolding shifted
shifted-nil zero b h = omega (arith, h)
shifted-nil (suc n) b h = shifted-nil n (u32 (2 * b)) (omega arith) ∙ next_nil n b

-- A bit `x` and the `n` bits of `y` behind it.
pub next_bit :
    (n b x y : ℕ) → u32 (u32 (2 * b + x) * 2 ^ n + y) ≡ u32 (b * 2 ^ suc n + (x * 2 ^ n + y))
next_bit n b x y =
    let e : (2 * b + x) * 2 ^ n + y ≡ b * 2 ^ suc n + (x * 2 ^ n + y) = omega (
      arith,
      ap (λ (t : ℕ). b * t) (pow-succ' 2 n),
      add_mul (2 * b) x (2 ^ n),
      mul_assoc 2 b (2 ^ n),
      mul_pull b 2 (2 ^ n),
    ) in
    wrap_inside (2 * b + x) (2 ^ n) y (2 ^ 32) (omega arith) ∙ ap u32 e

-- The first `n` of the `m` low bits of a word.
pub shifted-bits_of :
    (n k m v b : ℕ) (rest : List ℕ)
    → m ≡ n + k
    → b < 2 ^ 32
    → shifted n b (bits_of m v ++ rest) ≡ u32 (b * 2 ^ n + v / 2 ^ k % 2 ^ n)
unfolding shifted
shifted-bits_of zero k m v b rest e h = omega (arith, h)
shifted-bits_of (suc n) k zero v b rest e h = absurd (omega arith)
shifted-bits_of (suc n) k (suc m) v b rest e h =
    let m' : m ≡ n + k = omega arith in
    let x : ℕ = v / 2 ^ m % 2 in
    let top : v / 2 ^ m ≡ v / 2 ^ k / 2 ^ n = ap (λ (t : ℕ). v / 2 ^ t) m' ∙ div_split v n k in
    shifted-bits_of n k m v (u32 (2 * b + x)) rest m' (omega arith)
    ∙ next_bit n b x (v / 2 ^ k % 2 ^ n)
    ∙ ap (λ (t : ℕ). u32 (b * 2 ^ suc n + (t % 2 * 2 ^ n + v / 2 ^ k % 2 ^ n))) top
    ∙ ap (λ (t : ℕ). u32 (b * 2 ^ suc n + t)) (sym (mod_split (v / 2 ^ k) n))

pub drop-bits_of :
    (n k m v : ℕ) (rest : List ℕ) → m ≡ n + k → drop n (bits_of m v ++ rest) ≡ bits_of k v ++ rest
drop-bits_of zero k m v rest e =
    let e' : m ≡ k = omega arith in ap (λ (t : ℕ). bits_of t v ++ rest) e'
drop-bits_of (suc n) k zero v rest e = absurd (omega arith)
drop-bits_of (suc n) k (suc m) v rest e = drop-bits_of n k m v rest (omega arith)

pub length-bits_of : (k v : ℕ) → length (bits_of k v) ≡ k
length-bits_of zero v = refl
length-bits_of (suc k) v = ap suc (length-bits_of k v)

pub shifted-lt : (n b : ℕ) (xs : List ℕ) → b < 2 ^ 32 → shifted n b xs < 2 ^ 32
unfolding shifted
shifted-lt zero b xs h = h
shifted-lt (suc n) b [] h = shifted-lt n (u32 (2 * b)) [] (omega arith)
shifted-lt (suc n) b (x ∷ xs) h = shifted-lt n (u32 (2 * b + x)) xs (omega arith)

-- Shifting in two steps.
pub shifted_split :
    (m j n b : ℕ) (xs : List ℕ)
    → n ≡ m + j
    → shifted n b xs ≡ shifted j (shifted m b xs) (drop m xs)
unfolding shifted
shifted_split zero j n b xs e = let e' : n ≡ j = omega arith in ap (λ (t : ℕ). shifted t b xs) e'
shifted_split (suc m) j zero b xs e = absurd (omega arith)
shifted_split (suc m) j (suc n) b [] e =
    shifted_split m j n (u32 (2 * b)) [] (omega arith)
    ∙ ap (λ (t : List ℕ). shifted j (shifted m (u32 (2 * b)) []) t) (drop-nil m)
shifted_split (suc m) j (suc n) b (x ∷ xs) e =
    shifted_split m j n (u32 (2 * b + x)) xs (omega arith)

-- A shift by `n` bits within 32 keeps the `32 - n` low bits of the register.
shift_field : (n b y : ℕ) → n ≤ 32 → y < 2 ^ n → u32 (b * 2 ^ n + y) ≡ b % 2 ^ (32 - n) * 2 ^ n + y
shift_field n b y h hy =
    let sum : 32 - n + n ≡ 32 = omega arith in
    let whole : 2 ^ 32 ≡ 2 ^ (32 - n) * 2 ^ n =
      ap (λ (k : ℕ). 2 ^ k) (sym sum) ∙ pow_add (32 - n) n in
    ap (λ (t : ℕ). (b * 2 ^ n + y) % t) whole
    ∙ field_mod b (2 ^ n) (2 ^ (32 - n)) y hy (one-le-pow (32 - n) 2 (omega arith))

-- `|` of a shifted register and a field of `m` bits that end at bit `j`.
pub splice :
    (m j b x : ℕ)
    → m + j ≤ 32
    → x < 2 ^ m
    → bit_or (u32 (b * 2 ^ (m + j))) (x * 2 ^ j) ≡ u32 (u32 (b * 2 ^ m + x) * 2 ^ j)
splice m j b x h hx =
    let n : ℕ = m + j in
    let y : ℕ = x * 2 ^ j in
    let room : y + 2 ^ j ≤ 2 ^ m * 2 ^ j = mul_room x (2 ^ m) (2 ^ j) hx in
    let hy : y < 2 ^ n = omega (arith, room, pow_add m j, one-le-pow j 2 (omega arith)) in
    let left : u32 (b * 2 ^ n) ≡ b % 2 ^ (32 - n) * 2 ^ n =
      omega (arith, shift_field n b 0 h (one-le-pow n 2 (omega arith))) in
    let spread : (b * 2 ^ m + x) * 2 ^ j + 0 ≡ b * 2 ^ n + y = omega (
      arith,
      add_mul (b * 2 ^ m) x (2 ^ j),
      mul_assoc b (2 ^ m) (2 ^ j),
      ap (λ (t : ℕ). b * t) (pow_add m j),
    ) in
    let right : u32 (u32 (b * 2 ^ m + x) * 2 ^ j + 0) ≡ u32 (b * 2 ^ n + y) =
      wrap_inside (b * 2 ^ m + x) (2 ^ j) 0 (2 ^ 32) (omega arith) ∙ ap u32 spread in
    let z : u32 (b * 2 ^ m + x) * 2 ^ j ≡ u32 (b * 2 ^ m + x) * 2 ^ j + 0 = omega arith in
    ap (λ (t : ℕ). bit_or t y) left
    ∙ bit_or_fields n (b % 2 ^ (32 - n)) y hy
    ∙ sym (shift_field n b y h hy)
    ∙ sym right
    ∙ ap u32 (sym z)

pub splice_low : (n b x : ℕ) → n ≤ 32 → x < 2 ^ n → bit_or (u32 (b * 2 ^ n)) x ≡ u32 (b * 2 ^ n + x)
splice_low n b x h hx =
    let left : u32 (b * 2 ^ n) ≡ b % 2 ^ (32 - n) * 2 ^ n =
      omega (arith, shift_field n b 0 h (one-le-pow n 2 (omega arith))) in
    ap (λ (t : ℕ). bit_or t x) left
    ∙ bit_or_fields n (b % 2 ^ (32 - n)) x hx
    ∙ sym (shift_field n b x h hx)

mod_of_multiple : (x p q : ℕ) → x % (p * q) % p ≡ x % p
mod_of_multiple x p q =
    let split : x ≡ p * (q * (x / (p * q))) + x % (p * q) =
      omega (arith, mod-add-div x (p * q), mul_assoc p q (x / (p * q))) in
    sym (ap (λ (t : ℕ). t % p) split ∙ mul-add-mod_self_left p (q * (x / (p * q))) (x % (p * q)))

plus_zero : (n : ℕ) → n + 0 ≡ n
plus_zero n = omega arith

-- What a shift to the left leaves within `m + j` bits.
pub low_part : (m j w : ℕ) → m + j ≤ 32 → u32 (w * 2 ^ j) % 2 ^ (m + j) ≡ w % 2 ^ m * 2 ^ j
low_part m j w h =
    let n : ℕ = m + j in
    let sum : n + (32 - n) ≡ 32 = omega arith in
    let whole : 2 ^ 32 ≡ 2 ^ n * 2 ^ (32 - n) =
      ap (λ (k : ℕ). 2 ^ k) (sym sum) ∙ pow_add n (32 - n) in
    let inner : u32 (w * 2 ^ j) % 2 ^ n ≡ w * 2 ^ j % 2 ^ n =
      ap (λ (t : ℕ). w * 2 ^ j % t % 2 ^ n) whole
      ∙ mod_of_multiple (w * 2 ^ j) (2 ^ n) (2 ^ (32 - n)) in
    let cut : (w * 2 ^ j + 0) % (2 ^ m * 2 ^ j) ≡ w % 2 ^ m * 2 ^ j + 0 =
      field_mod w (2 ^ j) (2 ^ m) 0 (one-le-pow j 2 (omega arith)) (one-le-pow m 2 (omega arith)) in
    inner
    ∙ ap (λ (t : ℕ). w * 2 ^ j % t) (pow_add m j)
    ∙ ap (λ (t : ℕ). t % (2 ^ m * 2 ^ j)) (sym (plus_zero (w * 2 ^ j)))
    ∙ cut
    ∙ plus_zero (w % 2 ^ m * 2 ^ j)
