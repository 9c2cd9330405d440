-- ===== src/Common/Bytes.antt =====
-- Memory as a list of bytes, and little-endian words in it.
use Prim.Native.Nat.{ℕ, zero, suc, ◌+◌, ◌*◌, ◌/◌, ◌%◌, ◌^◌, ◌≤◌, ◌<◌}
use mathlib.Core.Path.{◌≡◌, refl, ap, ap₂, ◌∙◌, sym}
use mathlib.Core.List.{List, [], ◌∷◌, ◌++◌}
use native.Mathlib.Nat.{pow-suc}
use native.Mathlib.Omega.{arith}
use faser_common.Common.Tests.{leb, if◌then◌else◌, le→leb, lt→leb_false}
use faser_common.Common.Lists.{
  length, take, drop, take-append-drop, All, drop-drop, take-add, length-take, length-drop,
}
use faser_common.Common.Lists.{take-append_le, drop-append_le, All-take, All-drop}
use faser_common.Common.Exec.{Result, ok, fault}

abbrev pub IsByte : ℕ → Type 0
IsByte b = b < 256

abbrev pub IsBytes : List ℕ → Type 0
IsBytes = All IsByte

-- The `n` bytes of a word, lowest first.
abbrev pub le_bytes : ℕ → ℕ → List ℕ
le_bytes zero v = []
le_bytes (suc n) v = (v % 256) ∷ le_bytes n (v / 256)

-- The word that a run of bytes stands for.
abbrev pub le_value : List ℕ → ℕ
le_value [] = 0
le_value (b ∷ bs) = b + 256 * le_value bs

-- `n` bytes from offset `k` on.
abbrev pub slice : ℕ → ℕ → List ℕ → List ℕ
slice k n xs = take n (drop k xs)

-- The word of `n` bytes at offset `k`.
abbrev pub field : ℕ → ℕ → List ℕ → ℕ
field k n xs = le_value (slice k n xs)

-- Reads that are checked against the end of the buffer.
abbrev pub load_bytes {ℓ} : {E : Type ℓ} → List ℕ → ℕ → ℕ → Result E (List ℕ)
load_bytes buf k n = if leb (k + n) (length buf) then ok (slice k n buf) else fault

abbrev pub load {ℓ} : {E : Type ℓ} → List ℕ → ℕ → ℕ → Result E ℕ
load buf k n = if leb (k + n) (length buf) then ok (field k n buf) else fault

pub length-le_bytes : (n v : ℕ) → length (le_bytes n v) ≡ n
length-le_bytes zero v = refl
length-le_bytes (suc n) v = ap suc (length-le_bytes n (v / 256))

pub le_bytes-IsBytes : (n v : ℕ) → IsBytes (le_bytes n v)
le_bytes-IsBytes zero v = tt
le_bytes-IsBytes (suc n) v = (omega arith, le_bytes-IsBytes n (v / 256))

pub le_value-le_bytes : (n v : ℕ) → v < 256 ^ n → le_value (le_bytes n v) ≡ v
le_value-le_bytes zero v h = omega arith
le_value-le_bytes (suc n) v h =
    omega (arith, le_value-le_bytes n (v / 256) (omega (arith, pow-suc 256 n)))

pub le_bytes-le_value : (bs : List ℕ) → IsBytes bs → le_bytes (length bs) (le_value bs) ≡ bs
le_bytes-le_value [] h = refl
le_bytes-le_value (b ∷ bs) h =
    ap₂ ◌∷◌ (omega (arith, h.0))
      (ap (le_bytes (length bs)) (omega (arith, h.0)) ∙ le_bytes-le_value bs h.1)

pub le_value-lt : (bs : List ℕ) → IsBytes bs → le_value bs < 256 ^ length bs
le_value-lt [] h = omega arith
le_value-lt (b ∷ bs) h = omega (arith, h.0, le_value-lt bs h.1, pow-suc 256 (length bs))

pub length-slice : (k n : ℕ) (xs : List ℕ) → k + n ≤ length xs → length (slice k n xs) ≡ n
length-slice k n xs h = omega (arith, length-take n (drop k xs), length-drop k xs)

pub slice-IsBytes : (k n : ℕ) (xs : List ℕ) → IsBytes xs → IsBytes (slice k n xs)
slice-IsBytes k n xs h = All-take IsByte n (drop k xs) (All-drop IsByte k xs h)

-- The bytes of a word that was read are the bytes that were there.
pub le_bytes-field :
    (k n : ℕ) (xs : List ℕ)
    → IsBytes xs
    → k + n ≤ length xs
    → le_bytes n (field k n xs) ≡ slice k n xs
le_bytes-field k n xs hx hn =
    ap (λ (m : ℕ). le_bytes m (field k n xs)) (sym (length-slice k n xs hn))
    ∙ le_bytes-le_value (slice k n xs) (slice-IsBytes k n xs hx)

pub field-lt : (k n : ℕ) (xs : List ℕ) → IsBytes xs → k + n ≤ length xs → field k n xs < 256 ^ n
field-lt k n xs hx hn = omega (
  arith,
  le_value-lt (slice k n xs) (slice-IsBytes k n xs hx),
  ap (λ (m : ℕ). 256 ^ m) (length-slice k n xs hn),
)

-- Two slices that meet make one.
pub slice-append_slice :
    (k n m : ℕ) (xs : List ℕ) → slice k n xs ++ slice (k + n) m xs ≡ slice k (n + m) xs
slice-append_slice k n m xs =
    ap (λ t. slice k n xs ++ take m t) (sym (drop-drop k n xs)) ∙ take-add n m (drop k xs)

-- Bytes behind the slice do not matter.
pub slice-append :
    (k n : ℕ) (xs ys : List ℕ) → k + n ≤ length xs → slice k n (xs ++ ys) ≡ slice k n xs
slice-append k n xs ys h =
    ap (take n) (drop-append_le k xs ys (omega arith))
    ∙ take-append_le n (drop k xs) ys (omega (arith, length-drop k xs))

module _ {ℓ} {E : Type ℓ} where
  pub load-in_range :
      (buf : List ℕ) (k n : ℕ) → k + n ≤ length buf → load {E = E} buf k n ≡ ok (field k n buf)
  load-in_range buf k n h = rw (le→leb _ _ h)

  pub load_bytes-in_range :
      (buf : List ℕ) (k n : ℕ)
      → k + n ≤ length buf
      → load_bytes {E = E} buf k n ≡ ok (slice k n buf)
  load_bytes-in_range buf k n h = rw (le→leb _ _ h)

  pub load_bytes-out_of_range :
      (buf : List ℕ) (k n : ℕ) → length buf < k + n → load_bytes {E = E} buf k n ≡ fault
  load_bytes-out_of_range buf k n h = rw (lt→leb_false _ _ h)

-- One field of a packed structure in front of the fields behind it.
pub le_bytes-append_slice :
    (k n m : ℕ) (xs rest : List ℕ)
    → IsBytes xs
    → k + n ≤ length xs
    → rest ≡ slice (k + n) m xs
    → le_bytes n (field k n xs) ++ rest ≡ slice k (n + m) xs
le_bytes-append_slice k n m xs rest hx hn e =
    ap₂ ◌++◌ (le_bytes-field k n xs hx hn) e ∙ slice-append_slice k n m xs

-- The fields of a prefix of `m` bytes are those of the whole, whatever follows the prefix.
pub field-prefix :
    (k n m : ℕ) (xs rest : List ℕ)
    → k + n ≤ m
    → m ≤ length xs
    → field k n (slice 0 m xs ++ rest) ≡ field k n xs
field-prefix k n m xs rest h hm =
    let long : k + n ≤ length (take m xs) = omega (arith, length-take m xs) in
    ap le_value (slice-append k n (take m xs) rest long)
    ∙ ap le_value (sym (slice-append k n (take m xs) (drop m xs) long))
    ∙ ap (field k n) (take-append-drop m xs)
