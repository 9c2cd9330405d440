-- ===== src/Tracker/Decode/Recognised.antt =====
-- Which packet the tests of `DecodeModuleData` see in a window.
use faser_common.Common.{
  ℕ, ◌+◌, ◌*◌, ◌/◌, ◌^◌, ◌<◌, ◌≡◌, refl, ap, ◌∙◌, true, false, bit_and, arith,
}
use faser_common.Common.Bits.{bit_and_mask, bit_and_shifted, bit_and-zero}
use faser_common.Common.Bits.Fields.{bit_and_fields, bit_and-lt}
use faser_common.Tracker.Decode.{
  is_header, is_error, is_config, is_data, is_nodata, is_trailer, has_leading_bit,
}

-- `&` by its two highest bits: the word's are `t`, the mask's `m`.
masked :
    (w t y m z : ℕ)
    → w ≡ t * 2 ^ 30 + y
    → y < 2 ^ 30
    → z < 2 ^ 30
    → (q : ℕ) × (q < 2 ^ 30) × (bit_and w (m * 2 ^ 30 + z) ≡ bit_and t m * 2 ^ 30 + q)
masked w t y m z e hy hz = (
  bit_and y z,
  bit_and-lt 30 y z hy,
  ap (λ (x : ℕ). bit_and x (m * 2 ^ 30 + z)) e ∙ bit_and_fields 30 t m y z hy hz,
)

-- A header.
module _ (l1id bcid r w : ℕ) (hl : l1id < 2 ^ 4) (hb : bcid < 2 ^ 8) (hr : r < 2 ^ 13)
    (e : w ≡ (((58 * 2 ^ 4 + l1id) * 2 ^ 8 + bcid) * 2 + 1) * 2 ^ 13 + r) where
  header_masked : bit_and w 0xFC002000 ≡ 0xE8002000
  header_masked =
      let z : ℕ = l1id * 2 ^ 8 + bcid in
      let inner : bit_and (58 * 2 ^ 12 + z) (63 * 2 ^ 12 + 0)
          ≡ bit_and 58 63 * 2 ^ 12 + bit_and z 0 =
        bit_and_fields 12 58 63 z 0 (omega arith) (omega arith) in
      let middle =
        bit_and_fields 1 (58 * 2 ^ 12 + z) (63 * 2 ^ 12) 1 1 (omega arith) (omega arith) in
      let outer =
        bit_and_fields 13 ((58 * 2 ^ 12 + z) * 2 ^ 1 + 1) (63 * 2 ^ 12 * 2 ^ 1 + 1) r 0 hr
          (omega arith) in
      let same : w ≡ ((58 * 2 ^ 12 + z) * 2 ^ 1 + 1) * 2 ^ 13 + r = omega (arith, e) in
      ap (λ (x : ℕ). bit_and x 0xFC002000) same
      ∙ outer
      ∙ omega (arith, inner, middle, bit_and-zero z, bit_and-zero r)

  pub header_seen : is_header w ≡ true
  header_seen = rw header_masked refl

  pub l1id_seen : bit_and (w / 2 ^ 22) 0xf ≡ l1id
  l1id_seen = omega (arith, bit_and_mask 4 (w / 2 ^ 22), e)

  pub bcid_seen : bit_and (w / 2 ^ 14) 0xff ≡ bcid
  bcid_seen = omega (arith, bit_and_mask 8 (w / 2 ^ 14), e)

  -- The 19 bits that the two sides are compared by.
  pub compared : bit_and w 0xFFFFE000 ≡ (((58 * 2 ^ 4 + l1id) * 2 ^ 8 + bcid) * 2 + 1) * 2 ^ 13
  compared = omega (arith, bit_and_shifted 13 19 w, e)

-- A packet of hits.
module _ (chip channel r w : ℕ) (hc : chip < 2 ^ 4) (hn : channel < 2 ^ 7) (hr : r < 2 ^ 19)
    (e : w ≡ ((1 * 2 ^ 4 + chip) * 2 ^ 7 + channel) * 2 ^ 19 + r) where
  abbrev low : ℕ
  low = (chip * 2 ^ 7 + channel) * 2 ^ 19 + r

  packet_masked :
      (m z : ℕ)
      → z < 2 ^ 30
      → (q : ℕ) × (q < 2 ^ 30) × (bit_and w (m * 2 ^ 30 + z) ≡ bit_and 1 m * 2 ^ 30 + q)
  packet_masked m z hz = masked w 1 low m z (omega (arith, e)) (omega arith) hz

  pub packet_no_header : is_header w ≡ false
  packet_no_header =
      let (q, small, seen) = packet_masked 3 0x3C002000 (omega arith) in
      let seen' : bit_and w 0xFC002000 ≡ 2 ^ 30 + q = seen in ground (arith, seen', small)

  pub packet_no_error : is_error w ≡ false
  packet_no_error =
      let (q, small, seen) = packet_masked 3 0x20200000 (omega arith) in
      let seen' : bit_and w 0xE0200000 ≡ 2 ^ 30 + q = seen in ground (arith, seen', small)

  pub packet_no_config : is_config w ≡ false
  packet_no_config =
      let (q, small, seen) = packet_masked 3 0x21C02010 (omega arith) in
      let seen' : bit_and w 0xE1C02010 ≡ 2 ^ 30 + q = seen in ground (arith, seen', small)

  pub packet_seen : is_data w ≡ true
  packet_seen =
      let top : bit_and w 0xC0000000 ≡ 0x40000000 = omega (arith, bit_and_shifted 30 2 w, e) in
      rw top refl

  pub packet_no_leading_bit : has_leading_bit w ≡ false
  packet_no_leading_bit =
      let top : bit_and w 0x80000000 ≡ 0 = omega (arith, bit_and_shifted 31 1 w, e) in rw top refl

  pub chip_seen : bit_and (w / 2 ^ 26) 0xF ≡ chip
  chip_seen = omega (arith, bit_and_mask 4 (w / 2 ^ 26), e)

  pub channel_seen : bit_and (w / 2 ^ 19) 0x7F ≡ channel
  channel_seen = omega (arith, bit_and_mask 7 (w / 2 ^ 19), e)

-- A trailer.
module _ (r w : ℕ) (hr : r < 2 ^ 16) (e : w ≡ 0x8000 * 2 ^ 16 + r) where
  trailer_masked :
      (m z : ℕ)
      → z < 2 ^ 30
      → (q : ℕ) × (q < 2 ^ 30) × (bit_and w (m * 2 ^ 30 + z) ≡ bit_and 2 m * 2 ^ 30 + q)
  trailer_masked m z hz = masked w 2 r m z (omega (arith, e)) (omega arith) hz

  pub trailer_no_header : is_header w ≡ false
  trailer_no_header =
      let (q, small, seen) = trailer_masked 3 0x3C002000 (omega arith) in
      let seen' : bit_and w 0xFC002000 ≡ 2 * 2 ^ 30 + q = seen in ground (arith, seen', small)

  pub trailer_no_error : is_error w ≡ false
  trailer_no_error =
      let (q, small, seen) = trailer_masked 3 0x20200000 (omega arith) in
      let seen' : bit_and w 0xE0200000 ≡ 2 * 2 ^ 30 + q = seen in ground (arith, seen', small)

  pub trailer_no_config : is_config w ≡ false
  trailer_no_config =
      let (q, small, seen) = trailer_masked 3 0x21C02010 (omega arith) in
      let seen' : bit_and w 0xE1C02010 ≡ 2 * 2 ^ 30 + q = seen in ground (arith, seen', small)

  pub trailer_no_data : is_data w ≡ false
  trailer_no_data =
      let top : bit_and w 0xC0000000 ≡ 0x80000000 = omega (arith, bit_and_shifted 30 2 w, e) in
      rw top refl

  pub trailer_no_nodata : is_nodata w ≡ false
  trailer_no_nodata =
      let (q, small, seen) = trailer_masked 3 0x20000000 (omega arith) in
      let seen' : bit_and w 0xE0000000 ≡ 2 * 2 ^ 30 + q = seen in ground (arith, seen', small)

  pub trailer_seen : is_trailer w ≡ true
  trailer_seen =
      let top : bit_and w 0xFFFF0000 ≡ 0x80000000 = omega (arith, bit_and_shifted 16 16 w, e) in
      rw top refl

  pub trailer_leading_bit : has_leading_bit w ≡ true
  trailer_leading_bit =
      let top : bit_and w 0x80000000 ≡ 0x80000000 = omega (arith, bit_and_shifted 31 1 w, e) in
      rw top refl
