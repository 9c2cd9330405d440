-- ===== src/Tracker/Bitstream/Cut.antt =====
-- The count of the bits that are left, at the end of a stream.
use faser_common.Common.{
  ℕ, ◌+◌, ◌-◌, ◌*◌, ◌^◌, ◌≤◌, ◌<◌, ◌≡◌, sym, ap, ◌∙◌, List, [], ◌∷◌, length, drop, false, arith,
}
use faser_common.Common.{leb, length-drop, length-append}
use faser_common.Common.Words.{u32}
use faser_common.Tracker.Bitstream.{Bitstream, fill_rest, remove_bits, bits_available}
use faser_common.Tracker.Bitstream.Shift.{bits_of, length-bits_of}
use faser_common.Tracker.Bitstream.Refine.{bits_from, pending}
use faser_common.Tracker.Bitstream.Window.{refill-across, remove_bits-cons}
use faser_common.Tracker.Bitstream.Contract.{StandsAt}

available_after :
    (s : Bitstream) (n w : ℕ)
    → s.m_bitstream_data ≡ w ∷ []
    → 24 - s.m_bits_used_of_next_word < n
    → (remove_bits s n).m_bits_available ≡ s.m_bits_available - u32 (n + 2 ^ 32 - 24)
unfolding fill_rest
available_after s n w e h =
    let over : leb n (24 - s.m_bits_used_of_next_word) ≡ false = ground arith in
    ap (λ t. t.m_bits_available)
      (remove_bits-cons s n w [] e ∙ refill-across s n (u32 (s.m_current_buffer * 2 ^ n)) [] w over)

length-pending :
    (s : Bitstream) (w : ℕ)
    → s.m_bitstream_data ≡ w ∷ []
    → length (pending s) ≡ 24 - s.m_bits_used_of_next_word
length-pending s w e =
    ap (λ ws. length (bits_from s.m_bits_used_of_next_word ws)) e
    ∙ length-append (bits_of (24 - s.m_bits_used_of_next_word) w) []
    ∙ omega (arith, length-bits_of (24 - s.m_bits_used_of_next_word) w)

-- A call of `RemoveBits` with fewer than 24 bits, and more than the last word of the stream still has,
-- leaves the stream with no bits available, although as many bits as the 56 less those used of the
-- last word before and those removed are still to come; the count of at most 32 bits is set to 0,
-- since the amount to subtract wraps around below 0.
pub bits_available-remove_bits :
    (s : Bitstream) (bits : List ℕ) (n w : ℕ)
    → StandsAt s bits
    → s.m_bitstream_data ≡ w ∷ []
    → s.m_bits_used_of_next_word < 24
    → 24 - s.m_bits_used_of_next_word < n
    → n < 24
    → s.m_bits_available ≤ 32
    → (bits_available (remove_bits s n) ≡ false)
      × (length (drop n bits) + (s.m_bits_used_of_next_word + n) ≡ 56)
bits_available-remove_bits s bits n w h e some_left over few counted =
    let none_counted : (remove_bits s n).m_bits_available ≡ 0 =
      omega (arith, available_after s n w e over) in
    let rest : length (drop 32 bits) ≡ 24 - s.m_bits_used_of_next_word =
      ap length (sym h.behind) ∙ length-pending s w e in
    (ground arith, omega (arith, length-drop 32 bits, length-drop n bits))
