-- ===== src/Tracker/Bitstream/Counted.antt =====
-- The count of available bits stays at 32 while there are words behind the window.
use faser_common.Common.{
  ℕ, ◌+◌, ◌-◌, ◌*◌, ◌^◌, ◌<◌, ◌≡◌, ◌⊎◌, inl, inr, refl, sym, ap, ◌∙◌, List, [], ◌∷◌, length, drop,
  true, leb, ltb, ◌==◌, Bool-cases, bit_or, bit_and, length-drop, arith,
}
use faser_common.Common.Words.{u32}
use faser_common.Tracker.Bitstream.{
  Bitstream, make_bitstream, fill_rest, mask_loop, remove_bits, bits_available,
}
use faser_common.Tracker.Bitstream.Refine.{bits_from, fill_rest-more, fill_rest-last}
use faser_common.Tracker.Bitstream.Window.{
  refill-inside, refill-end, refill-across, remove_bits-nil, remove_bits-cons, list-Cases,
}
use faser_common.Tracker.Bitstream.Contract.{StandsAt}

abbrev pub IsCounted : Bitstream → Type 0
IsCounted s = (s.m_bitstream_data ≡ []) ⊎ (s.m_bits_available ≡ 32)

pub make_bitstream-IsCounted : (ws : List ℕ) → IsCounted (make_bitstream ws)
unfolding make_bitstream
make_bitstream-IsCounted [] = inl refl
make_bitstream-IsCounted (w ∷ []) = inl refl
make_bitstream-IsCounted (w ∷ v ∷ ws) = inr refl

moved : (s s' : Bitstream) → s ≡ s' → IsCounted s' → IsCounted s
moved s s' e h = rw e h

fill_rest-IsCounted : (ws : List ℕ) (n b j : ℕ) → IsCounted (fill_rest n 32 ws b j)
unfolding fill_rest
fill_rest-IsCounted [] n b j = inl refl
fill_rest-IsCounted (v ∷ vs) n b j = elim (Bool-cases (ltb 24 j)) [
  | inl more ↦ moved _ _ (fill_rest-more n 32 v vs b j more) (fill_rest-IsCounted vs n _ (j - 24))
  | inr less ↦ moved _ _ (fill_rest-last n 32 v vs b j less) (inr refl)
]

module _ (s : Bitstream) (n : ℕ) where
  refill-IsCounted :
      (w : ℕ) (ws : List ℕ)
      → s.m_bitstream_data ≡ w ∷ ws
      → s.m_bits_available ≡ 32
      → IsCounted (remove_bits s n)
  refill-IsCounted w ws e all =
      let b : ℕ = u32 (s.m_current_buffer * 2 ^ n) in
      let j : ℕ = s.m_bits_used_of_next_word + n - 24 in
      let joined : ℕ = bit_or b (bit_and (u32 (w * 2 ^ j)) (mask_loop (n - 1) 1)) in
      elim (Bool-cases (leb n (24 - s.m_bits_used_of_next_word))) [
        | inl p ↦ elim (Bool-cases (s.m_bits_used_of_next_word + n == 24)) [
          | inl q ↦ moved _ _ (remove_bits-cons s n w ws e ∙ refill-end s n b ws w p q) (inr all)
          | inr q ↦ moved _ _ (remove_bits-cons s n w ws e ∙ refill-inside s n b ws w p q) (inr all)
        ]
        | inr p ↦
            moved _ _
              (remove_bits-cons s n w ws e
                ∙ refill-across s n b ws w p
                ∙ ap (λ (t : ℕ). fill_rest n t ws joined j) all)
              (fill_rest-IsCounted ws n joined j)
      ]

  pub remove_bits-IsCounted : IsCounted s → IsCounted (remove_bits s n)
  remove_bits-IsCounted h = elim (list-Cases s.m_bitstream_data) [
    | inl e ↦ moved _ _ (remove_bits-nil s n e) (inl e)
    | inr (w, ws, e) ↦ elim h [ inl e' ↦ cc (e, e') | inr all ↦ refill-IsCounted w ws e all ]
  ]

-- With more bits than the window holds, some are available.
pub IsCounted-available :
    (s : Bitstream) (bits : List ℕ)
    → IsCounted s
    → StandsAt s bits
    → 32 < length bits
    → bits_available s ≡ true
IsCounted-available s bits (inr all) h long = rw all refl
IsCounted-available s bits (inl e) h long =
    let none_left : length (drop 32 bits) ≡ 0 =
      ap length (sym h.behind) ∙ ap (λ ws. length (bits_from s.m_bits_used_of_next_word ws)) e in
    absurd (omega (arith, length-drop 32 bits))
