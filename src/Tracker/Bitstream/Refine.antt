-- ===== src/Tracker/Bitstream/Refine.antt =====
-- The stream is a shift register on the bits of its words.
use faser_common.Common.{
  ℕ, zero, suc, ◌+◌, ◌-◌, ◌*◌, ◌/◌, ◌%◌, ◌^◌, ◌≤◌, ◌<◌, ◌≡◌, refl, sym, ap, ◌∙◌, List, [], ◌∷◌,
  ◌++◌, drop, All, arith,
}
use faser_common.Common.{bit_or, drop-nil, drop-drop, ltb, true, false, Bool-cases, inl, inr}
use native.Mathlib.Nat.{
  pow-suc, one-le-pow, pow-le-pow_right, mod-eq_of_lt, div-lt_iff_lt-mul, mul_comm,
  mul-le-mul_right,
}
use faser_common.Common.Bits.{bit_or_fields}
use faser_common.Common.Words.{u32}
use faser_common.Tracker.Bitstream.{Bitstream, mask_loop, fill_rest}
use faser_common.Tracker.Bitstream.Shift.{
  bits_of, shifted, shifted-nil, shifted-bits_of, drop-bits_of, shifted-lt, shifted_split, splice,
  splice_low, pow_add,
}

abbrev pub IsWord : ℕ → Type 0
IsWord w = w < 2 ^ 24

-- The bits of words, and of words of whose first one some bits were used.
abbrev pub all_bits : List ℕ → List ℕ
all_bits [] = []
all_bits (w ∷ ws) = bits_of 24 w ++ all_bits ws

abbrev pub bits_from : ℕ → List ℕ → List ℕ
bits_from used [] = []
bits_from used (w ∷ ws) = bits_of (24 - used) w ++ all_bits ws

-- The bits that follow the window.
abbrev pub pending : Bitstream → List ℕ
pending s = bits_from s.m_bits_used_of_next_word s.m_bitstream_data

pub record IsStream (s : Bitstream) : Type 0 where
  pub buffer_fits : s.m_current_buffer < 2 ^ 32
  pub used_fits : s.m_bits_used_of_next_word ≤ 24
  pub words_fit : All IsWord s.m_bitstream_data

-- A stream that holds `b` in its window and `xs` behind it.
pub record Holds (s : Bitstream) (b : ℕ) (xs : List ℕ) : Type 0 where
  pub window : s.m_current_buffer ≡ b
  pub behind : pending s ≡ xs
  pub stream : IsStream s

mask_step : (k n : ℕ) → n + k ≤ 32 → 1 ≤ n → mask_loop k (2 ^ n - 1) ≡ 2 ^ (n + k) - 1
unfolding mask_loop
mask_step zero n h h' = let e : n ≡ n + 0 = omega arith in ap (λ (t : ℕ). 2 ^ t - 1) e
mask_step (suc k) n h h' =
    let fits : 2 ^ suc n ≤ 2 ^ 32 =
      pow-le-pow_right {n = 2} (omega arith) {i = suc n} {j = 32} (omega arith) in
    let once : bit_or (u32 ((2 ^ n - 1) * 2)) 1 ≡ 2 ^ suc n - 1 = omega (
      arith,
      bit_or_fields 1 (2 ^ n - 1) 1 (omega arith),
      pow-suc 2 n,
      one-le-pow n 2 (omega arith),
      ap (λ (t : ℕ). bit_or t 1)
          (mod-eq_of_lt {n = (2 ^ n - 1) * 2} {m = 2 ^ 32}
            (omega (arith, fits, pow-suc 2 n, one-le-pow n 2 (omega arith)))),
    ) in
    let e : suc n + k ≡ n + suc k = omega arith in
    ap (mask_loop k) once
    ∙ mask_step k (suc n) (omega arith) (omega arith)
    ∙ ap (λ (t : ℕ). 2 ^ t - 1) e

pub mask_loop_lem : (n : ℕ) → 1 ≤ n → n ≤ 32 → mask_loop (n - 1) 1 ≡ 2 ^ n - 1
mask_loop_lem n h h' =
    let e : 1 + (n - 1) ≡ n = omega arith in
    mask_step (n - 1) 1 (omega arith) (omega arith) ∙ ap (λ (t : ℕ). 2 ^ t - 1) e

-- The `m` low bits of a word, and a whole word.
pub low_bits :
    (m b w : ℕ) (rest : List ℕ)
    → b < 2 ^ 32
    → shifted m b (bits_of m w ++ rest) ≡ u32 (b * 2 ^ m + w % 2 ^ m)
low_bits m b w rest h =
    let all : m ≡ m + 0 = omega arith in
    let one : w / 2 ^ 0 ≡ w = omega arith in
    shifted-bits_of m 0 m w b rest all h ∙ ap (λ (t : ℕ). u32 (b * 2 ^ m + t % 2 ^ m)) one

pub whole_word :
    (b v : ℕ) (rest : List ℕ)
    → b < 2 ^ 32
    → IsWord v
    → shifted 24 b (bits_of 24 v ++ rest) ≡ u32 (b * 2 ^ 24 + v)
whole_word b v rest h hv =
    low_bits 24 b v rest h ∙ ap (λ (t : ℕ). u32 (b * 2 ^ 24 + t)) (mod-eq_of_lt hv)

-- What a round of the loop adds, and what the last word adds.
product_lt : (v p : ℕ) → v < 2 ^ 24 → p ≤ 2 ^ 8 → v * p < 2 ^ 32
product_lt v p h h' = omega (arith, mul-le-mul_right v h', mul_comm v (2 ^ 8))

fill_round :
    (b v j : ℕ)
    → 24 < j
    → j ≤ 32
    → IsWord v
    → bit_or (u32 (b * 2 ^ j)) (u32 (v * 2 ^ (j - 24))) ≡ u32 (u32 (b * 2 ^ 24 + v) * 2 ^ (j - 24))
fill_round b v j h h' hv =
    let sum : j ≡ 24 + (j - 24) = omega arith in
    let bound : 2 ^ (j - 24) ≤ 2 ^ 8 =
      pow-le-pow_right {n = 2} (omega arith) {i = j - 24} {j = 8} (omega arith) in
    let fits : v * 2 ^ (j - 24) < 2 ^ 32 = product_lt v (2 ^ (j - 24)) hv bound in
    ap (λ (t : ℕ). bit_or (u32 (b * 2 ^ j)) t) (mod-eq_of_lt fits)
    ∙ ap (λ (t : ℕ). bit_or (u32 (b * 2 ^ t)) (v * 2 ^ (j - 24))) sum
    ∙ splice 24 (j - 24) b v (omega arith) hv

high_bits : (v j : ℕ) → j ≤ 24 → IsWord v → v / 2 ^ (24 - j) < 2 ^ j
high_bits v j h hv =
    let sum : j + (24 - j) ≡ 24 = omega arith in
    let whole : 2 ^ j * 2 ^ (24 - j) ≡ 2 ^ 24 =
      sym (pow_add j (24 - j)) ∙ ap (λ (t : ℕ). 2 ^ t) sum in
    (div-lt_iff_lt-mul {k = 2 ^ (24 - j)} {x = v} {y = 2 ^ j}
        (one-le-pow (24 - j) 2 (omega arith))).1
      (omega (arith, whole))

pub fill_last :
    (b v j : ℕ) (rest : List ℕ)
    → j ≤ 24
    → b < 2 ^ 32
    → IsWord v
    → bit_or (u32 (b * 2 ^ j)) (v / 2 ^ (24 - j)) ≡ shifted j b (bits_of 24 v ++ rest)
fill_last b v j rest h hb hv =
    let sum : 24 ≡ j + (24 - j) = omega arith in
    let small : v / 2 ^ (24 - j) < 2 ^ j = high_bits v j h hv in
    splice_low j b (v / 2 ^ (24 - j)) (omega arith) small
    ∙ ap (λ (t : ℕ). u32 (b * 2 ^ j + t)) (sym (mod-eq_of_lt small))
    ∙ sym (shifted-bits_of j (24 - j) 24 v b rest sum hb)

pub fill_rest-more :
    (n available v : ℕ) (vs : List ℕ) (b j : ℕ)
    → ltb 24 j ≡ true
    → fill_rest n available (v ∷ vs) b j
      ≡ fill_rest n available vs (bit_or b (u32 (v * 2 ^ (j - 24)))) (j - 24)
unfolding fill_rest
fill_rest-more n available v vs b j more = rw (more, fill_rest)

pub fill_rest-last :
    (n available v : ℕ) (vs : List ℕ) (b j : ℕ)
    → ltb 24 j ≡ false
    → fill_rest n available (v ∷ vs) b j ≡ record {
      m_current_buffer = bit_or b (v / 2 ^ (24 - j));
      m_bitstream_data = v ∷ vs;
      m_bits_used_of_next_word = j;
      m_bits_available = available;
    }
unfolding fill_rest
fill_rest-last n available v vs b j less = rw (less, fill_rest)

pub fits_of : {a b : ℕ} → a ≡ b → b < 2 ^ 32 → a < 2 ^ 32
fits_of e h = omega arith

pub Holds-moved :
    {s s' : Bitstream} {b b' : ℕ} {xs xs' : List ℕ}
    → s' ≡ s
    → b ≡ b'
    → xs ≡ xs'
    → Holds s b xs
    → Holds s' b' xs'
Holds-moved p q r h = rw (p, sym q, sym r) h

pub fill_rest-Holds :
    (ws : List ℕ) (n available b j : ℕ)
    → All IsWord ws
    → b < 2 ^ 32
    → j ≤ 32
    → Holds
        (fill_rest n available ws (u32 (b * 2 ^ j)) j)
        (shifted j b (all_bits ws))
        (drop j (all_bits ws))
unfolding fill_rest
fill_rest-Holds [] n available b j fit h h' = record {
  window = sym (shifted-nil j b h);
  behind = sym (drop-nil j);
  stream = record { buffer_fits = omega arith; used_fits = omega arith; words_fit = tt };
}
fill_rest-Holds (v ∷ vs) n available b j fit h h' = elim (Bool-cases (ltb 24 j)) [
  | inl more ↦
      let room : 24 < j = ground arith in
      let b' : ℕ = u32 (b * 2 ^ 24 + v) in
      let sum : j ≡ 24 + (j - 24) = omega arith in
      let ih = fill_rest-Holds vs n available b' (j - 24) fit.1 (omega arith) (omega arith) in
      let step : shifted 24 b (bits_of 24 v ++ all_bits vs) ≡ b' =
        whole_word b v (all_bits vs) h fit.0 in
      let rest : drop 24 (bits_of 24 v ++ all_bits vs) ≡ all_bits vs =
        drop-bits_of 24 0 24 v (all_bits vs) refl in
      let all : shifted j b (bits_of 24 v ++ all_bits vs) ≡ shifted (j - 24) b' (all_bits vs) =
        shifted_split 24 (j - 24) j b (bits_of 24 v ++ all_bits vs) sum
        ∙ ap (λ (t : ℕ). shifted (j - 24) t (drop 24 (bits_of 24 v ++ all_bits vs))) step
        ∙ ap (shifted (j - 24) b') rest in
      Holds-moved
        (fill_rest-more n available v vs (u32 (b * 2 ^ j)) j more
          ∙ ap (λ (t : ℕ). fill_rest n available vs t (j - 24)) (fill_round b v j room h' fit.0))
        (sym all)
        (ap (drop (j - 24)) (sym rest)
          ∙ drop-drop 24 (j - 24) (bits_of 24 v ++ all_bits vs)
          ∙ ap (λ (t : ℕ). drop t (bits_of 24 v ++ all_bits vs)) (sym sum))
        ih
  | inr less ↦
      let room : j ≤ 24 = ground arith in
      Holds-moved (fill_rest-last n available v vs (u32 (b * 2 ^ j)) j less) refl refl record {
        window = fill_last b v j (all_bits vs) room h fit.0;
        behind = sym (drop-bits_of j (24 - j) 24 v (all_bits vs) (omega arith));
        stream = record {
          buffer_fits =
              fits_of (fill_last b v j (all_bits vs) room h fit.0)
                (shifted-lt j b (bits_of 24 v ++ all_bits vs) h);
          used_fits = room;
          words_fit = fit;
        };
      }
]
