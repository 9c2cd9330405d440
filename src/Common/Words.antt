-- ===== src/Common/Words.antt =====
-- Unsigned words of fixed width, and a buffer read as an array of 32-bit words.
use Prim.Native.Nat.{ℕ, zero, suc, ◌+◌, ◌*◌, ◌%◌, ◌^◌, ◌<◌}
use mathlib.Core.Path.{◌≡◌, refl, ap, ap₂}
use mathlib.Core.List.{List, [], ◌∷◌, ◌++◌}
use native.Mathlib.Omega.{arith}
use faser_common.Common.Lists.{length, drop, All}
use faser_common.Common.Lists.{drop-drop}
use faser_common.Common.Bytes.{le_bytes, field, le_value-le_bytes}

-- Conversions to the unsigned types.
abbrev pub u8 : ℕ → ℕ
u8 v = v % 2 ^ 8

abbrev pub u16 : ℕ → ℕ
u16 v = v % 2 ^ 16

abbrev pub u32 : ℕ → ℕ
u32 v = v % 2 ^ 32

abbrev pub IsU32 : ℕ → Type 0
IsU32 v = v < 2 ^ 32

-- The first `n` words of a buffer, as the program sees them through a `const uint32_t*`.
abbrev pub words : ℕ → List ℕ → List ℕ
words zero buf = []
words (suc n) buf = field 0 4 buf ∷ words n (drop 4 buf)

-- The buffer that holds the given words.
abbrev pub word_bytes : List ℕ → List ℕ
word_bytes [] = []
word_bytes (w ∷ ws) = le_bytes 4 w ++ word_bytes ws

pub length-word_bytes : (ws : List ℕ) → length (word_bytes ws) ≡ 4 * length ws
length-word_bytes [] = refl
length-word_bytes (w ∷ ws) = omega (arith, length-word_bytes ws)

pub length-words : (n : ℕ) (buf : List ℕ) → length (words n buf) ≡ n
length-words zero buf = refl
length-words (suc n) buf = ap suc (length-words n (drop 4 buf))

-- Words that are written to a buffer are read back from it.
pub words-word_bytes :
    (ws more : List ℕ) → All IsU32 ws → words (length ws) (word_bytes ws ++ more) ≡ ws
words-word_bytes [] more h = refl
words-word_bytes (w ∷ ws) more h =
    ap₂ ◌∷◌ (le_value-le_bytes 4 w h.0) (words-word_bytes ws more h.1)

-- The word at index `i` is the field at byte `4 * i`.
pub field-drop : (i k : ℕ) (buf : List ℕ) → field i 4 (drop k buf) ≡ field (k + i) 4 buf
field-drop i k buf = ap (λ t. field 0 4 t) (drop-drop k i buf)
