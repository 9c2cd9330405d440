-- ===== src/Tracker/Bitstream.antt =====
-- EventFormats/EventFormats/TrackerDataFragment.hpp and .icc: `Bitstream`, a window of 32 bits on
-- words of 24.
pub mod Shift
pub mod Refine
pub mod Window
pub mod Contract
pub mod Rank
pub mod Cut
pub mod Counted
use faser_common.Common.{ℕ, zero, suc, ◌+◌, ◌-◌, ◌*◌, ◌/◌, ◌^◌, List, [], ◌∷◌, Bool, true, false}
use faser_common.Common.{◌==◌, if◌then◌else◌, leb, ltb, length, bit_and, bit_or}
use faser_common.Common.Words.{u32}

-- `m_bitsAvailable` never stays below 0: the code sets it to 0 then, as `-` does here.
pub record Bitstream : Type 0 where
  pub m_current_buffer : ℕ
  pub m_bitstream_data : List ℕ
  pub m_bits_used_of_next_word : ℕ
  pub m_bits_available : ℕ

abbrev pub used_bits_per_word : ℕ
used_bits_per_word = 24

-- The constructor; its test of the fresh member, which is 0, never throws.
unfoldable pub make_bitstream : List ℕ → Bitstream
make_bitstream [] = record {
  m_current_buffer = 0;
  m_bitstream_data = [];
  m_bits_used_of_next_word = 0;
  m_bits_available = 0;
}
make_bitstream (w ∷ []) = record {
  m_current_buffer = u32 (w * 2 ^ (32 - used_bits_per_word));
  m_bitstream_data = [];
  m_bits_used_of_next_word = 0;
  m_bits_available = 32 - used_bits_per_word;
}
make_bitstream (w ∷ v ∷ ws) = record {
  m_current_buffer =
      bit_or (u32 (w * 2 ^ (32 - used_bits_per_word)))
        (v / 2 ^ (used_bits_per_word - (32 - used_bits_per_word)));
  m_bitstream_data = v ∷ ws;
  m_bits_used_of_next_word = 32 - used_bits_per_word;
  m_bits_available = 32;
}

-- The loop that makes the mask, with its rounds left.
unfoldable pub mask_loop : ℕ → ℕ → ℕ
mask_loop zero mask = mask
mask_loop (suc rounds) mask = mask_loop rounds (bit_or (u32 (mask * 2)) 1)

-- The end of `RemoveBits` on a stream with no more data: the difference of unsigned numbers wraps.
abbrev pub run_out : ℕ → ℕ → ℕ → Bitstream
run_out n available buffer = record {
  m_current_buffer = buffer;
  m_bitstream_data = [];
  m_bits_used_of_next_word = 0;
  m_bits_available = available - u32 (n + 2 ^ 32 - used_bits_per_word);
}

-- `RemoveBits` behind the end of a word: `missing_bits` are to come from the words left.
unfoldable pub fill_rest : ℕ → ℕ → List ℕ → ℕ → ℕ → Bitstream
fill_rest n available [] buffer missing_bits = run_out n available buffer
fill_rest n available (v ∷ vs) buffer missing_bits = elim (ltb used_bits_per_word missing_bits) [
  | true ↦
      fill_rest n available vs (bit_or buffer (u32 (v * 2 ^ (missing_bits - used_bits_per_word))))
        (missing_bits - used_bits_per_word)
  | false ↦ record {
    m_current_buffer = bit_or buffer (v / 2 ^ (used_bits_per_word - missing_bits));
    m_bitstream_data = v ∷ vs;
    m_bits_used_of_next_word = missing_bits;
    m_bits_available = available;
  }
]

-- `RemoveBits` on a stream whose next word is `w`, the window shifted already.
unfoldable pub refill : Bitstream → ℕ → ℕ → List ℕ → ℕ → Bitstream
refill s n shifted ws w =
    let used = s.m_bits_used_of_next_word in
    let mask = mask_loop (n - 1) 1 in
    elim (leb n (used_bits_per_word - used)) [
      | true ↦
          let buffer = bit_or shifted (bit_and (w / 2 ^ (used_bits_per_word - (used + n))) mask) in
          if used + n == used_bits_per_word
          then record s {
            m_current_buffer = buffer;
            m_bitstream_data = ws;
            m_bits_used_of_next_word = 0;
          }
          else record s { m_current_buffer = buffer; m_bits_used_of_next_word = used + n }
      | false ↦
          let missing_bits = used + n - used_bits_per_word in
          fill_rest n s.m_bits_available ws
            (bit_or shifted (bit_and (u32 (w * 2 ^ missing_bits)) mask)) missing_bits
    ]

-- `RemoveBits`, for 1 to 31 bits.
unfoldable pub remove_bits : Bitstream → ℕ → Bitstream
remove_bits s n = elim s.m_bitstream_data [
  | [] ↦ record s {
    m_current_buffer = u32 (s.m_current_buffer * 2 ^ n);
    m_bits_available = s.m_bits_available - n;
  }
  | w ∷ ws ↦ refill s n (u32 (s.m_current_buffer * 2 ^ n)) ws w
]

-- `BitsAvailable`, `GetWord32`, `AvailableWords`
abbrev pub bits_available : Bitstream → Bool
bits_available s = ltb 0 s.m_bits_available

abbrev pub get_word32 : Bitstream → ℕ
get_word32 s = s.m_current_buffer

abbrev pub available_words : Bitstream → ℕ
available_words s = length s.m_bitstream_data
