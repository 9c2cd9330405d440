-- ===== src/Tracker/Bitstream/Rank.antt =====
-- What is left of a stream: every call of `RemoveBits` lessens it.
use faser_common.Common.{
  ℕ, suc, ◌+◌, ◌-◌, ◌*◌, ◌^◌, ◌≤◌, ◌<◌, ◌≡◌, ap, List, [], ◌∷◌, length, arith,
}
use faser_common.Common.{leb, ltb, ◌==◌, bit_and, bit_or, true, Bool-cases, inl, inr}
use faser_common.Common.Words.{u32}
use faser_common.Tracker.Bitstream.{
  Bitstream, mask_loop, fill_rest, refill, remove_bits, bits_available,
}
use faser_common.Tracker.Bitstream.Refine.{IsStream, fill_rest-more, fill_rest-last}
use faser_common.Tracker.Bitstream.Window.{
  refill-inside, refill-end, refill-across, remove_bits-nil, remove_bits-cons, list-Cases,
}

abbrev pub rank : Bitstream → ℕ
rank s = 25 * length s.m_bitstream_data - s.m_bits_used_of_next_word + s.m_bits_available

rank-fill_rest :
    (ws : List ℕ) (n available b j : ℕ)
    → rank (fill_rest n available ws b j) ≤ 25 * length ws + available
unfolding fill_rest
rank-fill_rest [] n available b j = omega arith
rank-fill_rest (v ∷ vs) n available b j = elim (Bool-cases (ltb 24 j)) [
  | inl more ↦
      let b' : ℕ = bit_or b (u32 (v * 2 ^ (j - 24))) in
      let ih = rank-fill_rest vs n available b' (j - 24) in
      let same : rank (fill_rest n available (v ∷ vs) b j)
          ≡ rank (fill_rest n available vs b' (j - 24)) =
        ap rank (fill_rest-more n available v vs b j more) in
      omega arith
  | inr less ↦ rw (fill_rest-last n available v vs b j less) (omega arith)
]

module _ (s : Bitstream) (n b w : ℕ) (ws : List ℕ) where
  rank-refill :
      1 ≤ n
      → s.m_bits_used_of_next_word ≤ 24
      → s.m_bitstream_data ≡ w ∷ ws
      → rank (refill s n b ws w)
        < 25 * suc (length ws) - s.m_bits_used_of_next_word + s.m_bits_available
  rank-refill one few e =
      let len : length s.m_bitstream_data ≡ suc (length ws) = ap length e in
      elim (Bool-cases (leb n (24 - s.m_bits_used_of_next_word))) [
        | inl p ↦ elim (Bool-cases (s.m_bits_used_of_next_word + n == 24)) [
          | inl q ↦ rw (refill-end s n b ws w p q) (omega arith)
          | inr q ↦
              let room : n ≤ 24 - s.m_bits_used_of_next_word = ground arith in
              rw (refill-inside s n b ws w p q) (omega arith)
        ]
        | inr p ↦
            let j : ℕ = s.m_bits_used_of_next_word + n - 24 in
            let b' : ℕ = bit_or b (bit_and (u32 (w * 2 ^ j)) (mask_loop (n - 1) 1)) in
            let rest = rank-fill_rest ws n s.m_bits_available b' j in
            let same : rank (refill s n b ws w) ≡ rank (fill_rest n s.m_bits_available ws b' j) =
              ap rank (refill-across s n b ws w p) in
            omega arith
      ]

module _ (s : Bitstream) (n : ℕ) (v : IsStream s) (one : 1 ≤ n) where
  rank-nil : s.m_bitstream_data ≡ [] → rank (remove_bits s n) ≡ s.m_bits_available - n
  rank-nil e =
      let none_left : length s.m_bitstream_data ≡ 0 = ap length e in
      rw (remove_bits-nil s n e) (omega arith)

  rank-cons : (w : ℕ) (ws : List ℕ) → s.m_bitstream_data ≡ w ∷ ws → rank (remove_bits s n) < rank s
  rank-cons w ws e =
      let len : length s.m_bitstream_data ≡ suc (length ws) = ap length e in
      let less = rank-refill s n (u32 (s.m_current_buffer * 2 ^ n)) w ws one v.used_fits e in
      let same : rank (remove_bits s n)
          ≡ rank (refill s n (u32 (s.m_current_buffer * 2 ^ n)) ws w) =
        ap rank (remove_bits-cons s n w ws e) in
      omega arith

  pub rank-remove_bits :
      (rank (remove_bits s n) ≤ rank s)
      × (bits_available s ≡ true → rank (remove_bits s n) < rank s)
  rank-remove_bits = elim (list-Cases s.m_bitstream_data) [
    | inl e ↦ (
      omega (arith, rank-nil e),
      λ some_left. let pos : 0 < s.m_bits_available = ground arith in omega (arith, rank-nil e),
    )
    | inr (w, ws, e) ↦ (omega (arith, rank-cons w ws e), λ some_left. rank-cons w ws e)
  ]
