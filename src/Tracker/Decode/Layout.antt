-- ===== src/Tracker/Decode/Layout.antt =====
-- The bits of a module's side as `DecodeModuleData` reads them, and the windows on them.
use faser_common.Common.{
  ℕ, ◌+◌, ◌*◌, ◌%◌, ◌^◌, ◌<◌, ◌≡◌, refl, ap, ◌∙◌, List, [], ◌∷◌, ◌++◌, All, drop, arith,
}
use native.Mathlib.Nat.{mod-eq_of_lt}
use faser_common.Common.Words.{u32}
use faser_common.Tracker.Bitstream.Shift.{bits_of, shifted, shifted_split, drop-bits_of}
use faser_common.Tracker.Bitstream.Refine.{low_bits}
use faser_common.Tracker.Bitstream.Contract.{first_word}
use faser_common.Tracker.Decode.Hits.{IsBit, IsPattern, hit_bits, shifted_high}

-- The hits of one packet: patterns of the strips from a channel on.
pub record Packet : Type 0 where
  pub chip : ℕ
  pub channel : ℕ
  pub first : ℕ
  pub others : List ℕ

abbrev pub patterns : Packet → List ℕ
patterns p = p.first ∷ p.others

pub record IsPacket (p : Packet) : Type 0 where
  pub chip_fits : p.chip < 2 ^ 4
  pub channel_fits : p.channel < 2 ^ 7
  pub patterns_fit : All IsPattern (patterns p)

-- The preamble 111010, the l1id, the bcid and a 1.
abbrev pub header_bits : ℕ → ℕ → List ℕ → List ℕ
header_bits l1id bcid rest =
    bits_of 6 0b111010 ++ (bits_of 4 l1id ++ (bits_of 8 bcid ++ (bits_of 1 1 ++ rest)))

-- 01, the chip, the channel and the hits.
abbrev pub packet_bits : Packet → List ℕ → List ℕ
packet_bits p rest =
    bits_of 2 0b01 ++ (bits_of 4 p.chip ++ (bits_of 7 p.channel ++ (hit_bits (patterns p) ++ rest)))

-- A 1 and fifteen zeros; what follows is not read.
abbrev pub trailer_bits : List ℕ → List ℕ
trailer_bits rest = bits_of 16 0x8000 ++ rest

abbrev pub packets_bits : List Packet → List ℕ → List ℕ
packets_bits [] rest = trailer_bits rest
packets_bits (p ∷ ps) rest = packet_bits p (packets_bits ps rest)

abbrev pub side_bits : ℕ → ℕ → List Packet → List ℕ → List ℕ
side_bits l1id bcid ps rest = header_bits l1id bcid (packets_bits ps rest)

-- A field of `m` bits goes into the register.
shift_in :
    (m k n b w : ℕ) (rest : List ℕ)
    → n ≡ m + k
    → b < 2 ^ 32
    → w < 2 ^ m
    → b * 2 ^ m + w < 2 ^ 32
    → shifted n b (bits_of m w ++ rest) ≡ shifted k (b * 2 ^ m + w) rest
shift_in m k n b w rest e hb hw fits =
    let plain : u32 (b * 2 ^ m + w % 2 ^ m) ≡ b * 2 ^ m + w =
      ap (λ (t : ℕ). u32 (b * 2 ^ m + t)) (mod-eq_of_lt hw) ∙ mod-eq_of_lt fits in
    shifted_split m k n b (bits_of m w ++ rest) e
    ∙ ap (λ (t : ℕ). shifted k t (drop m (bits_of m w ++ rest))) (low_bits m b w rest hb ∙ plain)
    ∙ ap (shifted k (b * 2 ^ m + w)) (drop-bits_of m 0 m w rest (omega arith))

-- The window at a header, a packet and a trailer.
pub window_at_header :
    (l1id bcid : ℕ) (rest : List ℕ)
    → l1id < 2 ^ 4
    → bcid < 2 ^ 8
    → All IsBit rest
    → (r : ℕ) × (r < 2 ^ 13)
      × (first_word (header_bits l1id bcid rest)
          ≡ (((58 * 2 ^ 4 + l1id) * 2 ^ 8 + bcid) * 2 + 1) * 2 ^ 13 + r)
window_at_header l1id bcid rest hl hb bits =
    let top : ℕ = 58 * 2 ^ 4 + l1id in
    let both : ℕ = top * 2 ^ 8 + bcid in
    let (r, small, e) = shifted_high 13 (both * 2 ^ 1 + 1) rest bits (omega arith) in
    (
      r,
      small,
      shift_in 6 26 32 0 58 _ refl (omega arith) (omega arith) (omega arith)
          ∙ shift_in 4 22 26 58 l1id _ refl (omega arith) hl (omega arith)
          ∙ shift_in 8 14 22 top bcid _ refl (omega arith) hb (omega arith)
          ∙ shift_in 1 13 14 both 1 rest refl (omega arith) (omega arith) (omega arith)
          ∙ e
          ∙ omega arith,
    )

pub window_at_packet :
    (chip channel : ℕ) (rest : List ℕ)
    → chip < 2 ^ 4
    → channel < 2 ^ 7
    → All IsBit rest
    → (r : ℕ) × (r < 2 ^ 19)
      × (first_word (bits_of 2 0b01 ++ (bits_of 4 chip ++ (bits_of 7 channel ++ rest)))
          ≡ ((1 * 2 ^ 4 + chip) * 2 ^ 7 + channel) * 2 ^ 19 + r)
window_at_packet chip channel rest hc hn bits =
    let top : ℕ = 1 * 2 ^ 4 + chip in
    let (r, small, e) = shifted_high 19 (top * 2 ^ 7 + channel) rest bits (omega arith) in
    (
      r,
      small,
      shift_in 2 30 32 0 1 _ refl (omega arith) (omega arith) (omega arith)
          ∙ shift_in 4 26 30 1 chip _ refl (omega arith) hc (omega arith)
          ∙ shift_in 7 19 26 top channel rest refl (omega arith) hn (omega arith)
          ∙ e,
    )

pub window_at_trailer :
    (rest : List ℕ)
    → All IsBit rest
    → (r : ℕ) × (r < 2 ^ 16) × (first_word (trailer_bits rest) ≡ 0x8000 * 2 ^ 16 + r)
window_at_trailer rest bits =
    let (r, small, e) = shifted_high 16 0x8000 rest bits (omega arith) in
    (r, small, shift_in 16 16 32 0 0x8000 rest refl (omega arith) (omega arith) (omega arith) ∙ e)
