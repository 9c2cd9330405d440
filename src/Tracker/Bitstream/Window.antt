-- ===== src/Tracker/Bitstream/Window.antt =====
-- What `RemoveBits` leaves in the window and behind it.
use faser_common.Common.{
  ℕ, ◌+◌, ◌-◌, ◌*◌, ◌/◌, ◌%◌, ◌^◌, ◌≤◌, ◌<◌, ◌≡◌, refl, sym, ap, subst, ◌∙◌, List, [], ◌∷◌, ◌++◌,
  drop, All, arith,
}
use faser_common.Common.{
  bit_and, bit_or, drop-nil, drop-drop, leb, ◌==◌, true, false, Bool-cases, inl, inr, ◌⊎◌,
}
use native.Mathlib.Nat.{one-le-pow, mod-lt}
use faser_common.Common.Bits.{bit_and_mask}
use faser_common.Common.Words.{u32}
use faser_common.Tracker.Bitstream.{Bitstream, mask_loop, fill_rest, refill, remove_bits}
use faser_common.Tracker.Bitstream.Shift.{
  bits_of, shifted, shifted-nil, shifted-bits_of, drop-bits_of, shifted-lt, shifted_split, splice,
  splice_low, low_part,
}
use faser_common.Tracker.Bitstream.Refine.{
  IsWord, all_bits, bits_from, pending, IsStream, Holds, Holds-moved, fits_of, mask_loop_lem,
  low_bits, fill_rest-Holds,
}

bits_from-zero : (ws : List ℕ) → all_bits ws ≡ bits_from 0 ws
bits_from-zero [] = refl
bits_from-zero (w ∷ ws) = refl

module _ (s : Bitstream) (n b : ℕ) (ws : List ℕ) (w : ℕ) where
  pub refill-inside :
      leb n (24 - s.m_bits_used_of_next_word) ≡ true
      → (s.m_bits_used_of_next_word + n == 24) ≡ false
      → refill s n b ws w ≡ record s {
        m_current_buffer =
            bit_or b
              (bit_and (w / 2 ^ (24 - (s.m_bits_used_of_next_word + n))) (mask_loop (n - 1) 1));
        m_bits_used_of_next_word = s.m_bits_used_of_next_word + n;
      }
  unfolding refill
  refill-inside p q = rw (p, q, refill)

  pub refill-end :
      leb n (24 - s.m_bits_used_of_next_word) ≡ true
      → (s.m_bits_used_of_next_word + n == 24) ≡ true
      → refill s n b ws w ≡ record s {
        m_current_buffer =
            bit_or b
              (bit_and (w / 2 ^ (24 - (s.m_bits_used_of_next_word + n))) (mask_loop (n - 1) 1));
        m_bitstream_data = ws;
        m_bits_used_of_next_word = 0;
      }
  unfolding refill
  refill-end p q = rw (p, q, refill)

  pub refill-across :
      leb n (24 - s.m_bits_used_of_next_word) ≡ false
      → refill s n b ws w
        ≡ fill_rest n s.m_bits_available ws
            (bit_or b
              (bit_and (u32 (w * 2 ^ (s.m_bits_used_of_next_word + n - 24))) (mask_loop (n - 1) 1)))
            (s.m_bits_used_of_next_word + n - 24)
  unfolding refill
  refill-across p = rw (p, refill)

-- The bits of one word.
module _ (n used b w : ℕ) (rest : List ℕ) (one : 1 ≤ n) (few : n ≤ 31) (some_used : used ≤ 24)
    (hb : b < 2 ^ 32) where
  within :
      n ≤ 24 - used
      → bit_or (u32 (b * 2 ^ n)) (bit_and (w / 2 ^ (24 - (used + n))) (mask_loop (n - 1) 1))
        ≡ shifted n b (bits_of (24 - used) w ++ rest)
  within h =
      let k : ℕ = 24 - (used + n) in
      let sum : 24 - used ≡ n + k = omega arith in
      ap (λ (t : ℕ). bit_or (u32 (b * 2 ^ n)) (bit_and (w / 2 ^ k) t))
        (mask_loop_lem n one (omega arith))
      ∙ ap (bit_or (u32 (b * 2 ^ n))) (bit_and_mask n (w / 2 ^ k))
      ∙ splice_low n b (w / 2 ^ k % 2 ^ n) (omega arith)
          (mod-lt (w / 2 ^ k) (one-le-pow n 2 (omega arith)))
      ∙ sym (shifted-bits_of n k (24 - used) w b rest sum hb)

  across :
      24 - used < n
      → bit_or (u32 (b * 2 ^ n)) (bit_and (u32 (w * 2 ^ (used + n - 24))) (mask_loop (n - 1) 1))
        ≡ u32 (shifted (24 - used) b (bits_of (24 - used) w ++ rest) * 2 ^ (used + n - 24))
  across h =
      let m : ℕ = 24 - used in
      let j : ℕ = used + n - 24 in
      let sum : n ≡ m + j = omega arith in
      ap (λ (t : ℕ). bit_or (u32 (b * 2 ^ n)) (bit_and (u32 (w * 2 ^ j)) t))
        (mask_loop_lem n one (omega arith))
      ∙ ap (bit_or (u32 (b * 2 ^ n))) (bit_and_mask n (u32 (w * 2 ^ j)))
      ∙ ap (λ (t : ℕ). bit_or (u32 (b * 2 ^ t)) (u32 (w * 2 ^ j) % 2 ^ t)) sum
      ∙ ap (bit_or (u32 (b * 2 ^ (m + j)))) (low_part m j w (omega arith))
      ∙ splice m j b (w % 2 ^ m) (omega arith) (mod-lt w (one-le-pow m 2 (omega arith)))
      ∙ ap (λ (t : ℕ). u32 (t * 2 ^ j)) (sym (low_bits m b w rest hb))

cons-IsStream :
    (s : Bitstream) (w : ℕ) (ws : List ℕ)
    → s.m_bitstream_data ≡ w ∷ ws
    → IsStream s
    → IsWord w × All IsWord ws
cons-IsStream s w ws e v = subst (All IsWord) e v.words_fit

-- `RemoveBits` on a stream whose next word is `w`.
module _ (s : Bitstream) (n w : ℕ) (ws : List ℕ) (one : 1 ≤ n) (few : n ≤ 31) (v : IsStream s)
    (next : s.m_bitstream_data ≡ w ∷ ws) (fit : IsWord w × All IsWord ws) where
  -- The bits behind the window, and what `n` shifts leave in it.
  abbrev following : List ℕ
  following = bits_of (24 - s.m_bits_used_of_next_word) w ++ all_bits ws

  abbrev Removed : Type 0
  Removed =
      Holds (refill s n (u32 (s.m_current_buffer * 2 ^ n)) ws w)
        (shifted n s.m_current_buffer following) (drop n following)

  drop-following :
      n ≤ 24 - s.m_bits_used_of_next_word
      → drop n following ≡ bits_of (24 - (s.m_bits_used_of_next_word + n)) w ++ all_bits ws
  drop-following room =
      let used : ℕ = s.m_bits_used_of_next_word in
      drop-bits_of n (24 - (used + n)) (24 - used) w (all_bits ws) (omega arith)

  Removed-inside :
      leb n (24 - s.m_bits_used_of_next_word) ≡ true
      → (s.m_bits_used_of_next_word + n == 24) ≡ false
      → Removed
  Removed-inside p q =
      let used : ℕ = s.m_bits_used_of_next_word in
      let b : ℕ = s.m_current_buffer in
      let room : n ≤ 24 - used = ground arith in
      let new = within n used b w (all_bits ws) one few v.used_fits v.buffer_fits room in
      Holds-moved (refill-inside s n (u32 (b * 2 ^ n)) ws w p q) refl refl record {
        window = new;
        behind = ap (bits_from (used + n)) next ∙ sym (drop-following room);
        stream = record {
          buffer_fits = fits_of new (shifted-lt n b following v.buffer_fits);
          used_fits = omega (arith, v.used_fits);
          words_fit = v.words_fit;
        };
      }

  Removed-end :
      leb n (24 - s.m_bits_used_of_next_word) ≡ true
      → (s.m_bits_used_of_next_word + n == 24) ≡ true
      → Removed
  Removed-end p q =
      let used : ℕ = s.m_bits_used_of_next_word in
      let b : ℕ = s.m_current_buffer in
      let room : n ≤ 24 - used = ground arith in
      let none_left : 24 - (used + n) ≡ 0 = ground arith in
      let new = within n used b w (all_bits ws) one few v.used_fits v.buffer_fits room in
      Holds-moved (refill-end s n (u32 (b * 2 ^ n)) ws w p q) refl refl record {
        window = new;
        behind =
            sym (bits_from-zero ws)
            ∙ sym (drop-following room ∙ ap (λ (t : ℕ). bits_of t w ++ all_bits ws) none_left);
        stream = record {
          buffer_fits = fits_of new (shifted-lt n b following v.buffer_fits);
          used_fits = omega arith;
          words_fit = fit.1;
        };
      }

  Removed-across : leb n (24 - s.m_bits_used_of_next_word) ≡ false → Removed
  Removed-across p =
      let used : ℕ = s.m_bits_used_of_next_word in
      let b : ℕ = s.m_current_buffer in
      let hu : used ≤ 24 = v.used_fits in
      let m : ℕ = 24 - used in
      let j : ℕ = used + n - 24 in
      let room : m < n = ground arith in
      let sum : n ≡ m + j = omega arith in
      let gone : drop m following ≡ all_bits ws =
        drop-bits_of m 0 m w (all_bits ws) (omega arith) in
      let b' : ℕ = shifted m b following in
      let step = across n used b w (all_bits ws) one few hu v.buffer_fits room in
      Holds-moved
        (refill-across s n (u32 (b * 2 ^ n)) ws w p
          ∙ ap (λ (t : ℕ). fill_rest n s.m_bits_available ws t j) step)
        (ap (shifted j b') (sym gone) ∙ sym (shifted_split m j n b following sum))
        (ap (drop j) (sym gone)
          ∙ drop-drop m j following
          ∙ ap (λ (t : ℕ). drop t following) (sym sum))
        (fill_rest-Holds ws n s.m_bits_available b' j fit.1 (shifted-lt m b following v.buffer_fits)
          (omega arith))

  refill-Removed : Removed
  refill-Removed = elim (Bool-cases (leb n (24 - s.m_bits_used_of_next_word))) [
    | inl p ↦ elim (Bool-cases (s.m_bits_used_of_next_word + n == 24)) [
      | inl q ↦ Removed-end p q
      | inr q ↦ Removed-inside p q
    ]
    | inr p ↦ Removed-across p
  ]

pub remove_bits-nil :
    (s : Bitstream) (n : ℕ)
    → s.m_bitstream_data ≡ []
    → remove_bits s n ≡ record s {
      m_current_buffer = u32 (s.m_current_buffer * 2 ^ n);
      m_bits_available = s.m_bits_available - n;
    }
unfolding remove_bits
remove_bits-nil s n e = simp (e, remove_bits)

pub remove_bits-cons :
    (s : Bitstream) (n w : ℕ) (ws : List ℕ)
    → s.m_bitstream_data ≡ w ∷ ws
    → remove_bits s n ≡ refill s n (u32 (s.m_current_buffer * 2 ^ n)) ws w
unfolding remove_bits
remove_bits-cons s n w ws e = simp (e, remove_bits)

pub list-Cases : (xs : List ℕ) → (xs ≡ []) ⊎ ((x : ℕ) × (ys : List ℕ) × (xs ≡ x ∷ ys))
list-Cases [] = inl refl
list-Cases (x ∷ xs) = inr (x, xs, refl)

remove_bits-run_out :
    (s : Bitstream) (n : ℕ)
    → IsStream s
    → s.m_bitstream_data ≡ []
    → Holds (remove_bits s n) (shifted n s.m_current_buffer []) (drop n [])
remove_bits-run_out s n v e = Holds-moved (remove_bits-nil s n e) refl refl record {
  window = sym (shifted-nil n s.m_current_buffer v.buffer_fits);
  behind = ap (bits_from s.m_bits_used_of_next_word) e ∙ sym (drop-nil n);
  stream = record { buffer_fits = omega arith; used_fits = v.used_fits; words_fit = v.words_fit };
}

pub remove_bits-shifted :
    (s : Bitstream) (n : ℕ)
    → IsStream s
    → 1 ≤ n
    → n ≤ 31
    → Holds (remove_bits s n) (shifted n s.m_current_buffer (pending s)) (drop n (pending s))
remove_bits-shifted s n v one few = elim (list-Cases s.m_bitstream_data) [
  | inl e ↦
      let none_left : [] ≡ pending s = sym (ap (bits_from s.m_bits_used_of_next_word) e) in
      Holds-moved refl (ap (shifted n s.m_current_buffer) none_left) (ap (drop n) none_left)
        (remove_bits-run_out s n v e)
  | inr (w, ws, e) ↦
      let left : bits_from s.m_bits_used_of_next_word (w ∷ ws) ≡ pending s =
        sym (ap (bits_from s.m_bits_used_of_next_word) e) in
      Holds-moved (remove_bits-cons s n w ws e) (ap (shifted n s.m_current_buffer) left)
        (ap (drop n) left) (refill-Removed s n w ws one few v e (cons-IsStream s w ws e v))
]
