-- ===== src/Tracker/Decode/Encoded.antt =====
-- The packets of a module's side, one after the other.
use faser_common.Common.{
  ℕ, zero, suc, ◌+◌, ◌*◌, ◌/◌, ◌^◌, ◌≤◌, ◌<◌, ◌≡◌, inl, inr, refl, ap, ap₂, ◌∙◌, List, [], ◌∷◌,
  ◌++◌, length, All, true, false, some, bit_and, arith,
}
use faser_common.Common.OrderedMap.{find}
use faser_common.Tracker.SctEvent.{SctEvent, chip_id_map, chip_address}
use faser_common.Tracker.Bitstream.{Bitstream, remove_bits, get_word32}
use faser_common.Tracker.Bitstream.Shift.{bits_of}
use faser_common.Tracker.Bitstream.Contract.{StandsAt, remove_bits-StandsAt}
use faser_common.Tracker.Bitstream.Counted.{IsCounted, remove_bits-IsCounted}
use faser_common.Tracker.Decode
use faser_common.Tracker.Decode.{
  Decoded, returns, Side, read_packet, read_rest, read_slot, round, side_loop, data_packet,
  has_leading_bit, is_trailer, is_header, is_error, is_config, is_data, is_nodata,
}
use faser_common.Tracker.Decode.Hits.{IsBit, Ends, hit_bits}
use faser_common.Tracker.Decode.ChipHits.{with_hits}
use faser_common.Tracker.Decode.HitPacket.{hit_bits-IsBit, data_packet-hits}
use faser_common.Tracker.Decode.Layout.{
  Packet, patterns, IsPacket, packet_bits, packets_bits, trailer_bits, window_at_packet,
  window_at_trailer,
}
use faser_common.Tracker.Decode.Recognised

-- A chip that the module has, by its place among the twelve.
abbrev pub IsChip : ℕ → Type 0
IsChip chip = (i : ℕ) × (find (chip_address chip) chip_id_map ≡ some i) × (i < 12)

abbrev pub IsSound : Packet → Type 0
IsSound p = IsPacket p × IsChip p.chip

bits_of-IsBit : (k w : ℕ) (rest : List ℕ) → All IsBit rest → All IsBit (bits_of k w ++ rest)
bits_of-IsBit zero w rest h = h
bits_of-IsBit (suc k) w rest h = (omega arith, bits_of-IsBit k w rest h)

pub packets_bits-IsBit :
    (ps : List Packet) (pad : List ℕ) → All IsBit pad → All IsBit (packets_bits ps pad)
packets_bits-IsBit [] pad h = bits_of-IsBit 16 0x8000 pad h
packets_bits-IsBit (p ∷ ps) pad h =
    let hits = hit_bits (patterns p) ++ packets_bits ps pad in
    let behind_chip = bits_of 7 p.channel ++ hits in
    bits_of-IsBit 2 0b01 (bits_of 4 p.chip ++ behind_chip) (
      bits_of-IsBit 4 p.chip behind_chip (
        bits_of-IsBit 7 p.channel hits
          (hit_bits-IsBit (patterns p) (packets_bits ps pad) (packets_bits-IsBit ps pad h))))

-- What follows the hits of a packet ends them.
pub packets_bits-Ends :
    (ps : List Packet) (pad : List ℕ) → All IsSound ps → All IsBit pad → Ends (packets_bits ps pad)
packets_bits-Ends [] pad sound h =
    let (r, small, e) = window_at_trailer pad h in
    (
      packets_bits-IsBit [] pad h,
      inr (Recognised.trailer_leading_bit r _ small e, Recognised.trailer_seen r _ small e),
    )
packets_bits-Ends (p ∷ ps) pad sound h =
    let bits = hit_bits-IsBit (patterns p) (packets_bits ps pad) (packets_bits-IsBit ps pad h) in
    let fit = sound.0.0 in
    let (r, small, e) =
      window_at_packet p.chip p.channel (hit_bits (patterns p) ++ packets_bits ps pad) fit.chip_fits
        fit.channel_fits bits in
    (
      packets_bits-IsBit (p ∷ ps) pad h,
      inl (
          Recognised.packet_no_leading_bit p.chip p.channel r _ fit.chip_fits fit.channel_fits small
            e),
    )

length-hit_bits : (ps rest : List ℕ) → length (hit_bits ps ++ rest) ≡ 4 * length ps + length rest
length-hit_bits [] rest = omega arith
length-hit_bits (p ∷ ps) rest = omega (arith, length-hit_bits ps rest)

pub length-packet_bits :
    (p : Packet) (rest : List ℕ)
    → length (packet_bits p rest) ≡ 17 + 4 * length p.others + length rest
length-packet_bits p rest = omega (arith, length-hit_bits (patterns p) rest)

pub length-packets_bits : (ps : List Packet) (pad : List ℕ) → 16 ≤ length (packets_bits ps pad)
length-packets_bits [] pad = omega arith
length-packets_bits (p ∷ ps) pad =
    omega (arith, length-packet_bits p (packets_bits ps pad), length-packets_bits ps pad)

-- The loop over a side behind the header.
abbrev pub reading : Bitstream → SctEvent → Side
reading s ev = record {
  stream = s;
  module_event = some ev;
  has_event = true;
  praeamble_found = true;
  first = false;
}

round-reading :
    (inner k led other : ℕ) (s : Bitstream) (ev : SctEvent)
    → is_header (get_word32 s) ≡ false
    → round inner k led other (reading s ev) ≡ read_packet inner (reading s ev) ev
unfolding round read_rest read_slot Decode.header_word read_packet
round-reading inner k led other s ev e = rw (round, e) refl

read_packet-data :
    (inner : ℕ) (s : Bitstream) (ev : SctEvent)
    → is_error (get_word32 s) ≡ false
    → is_config (get_word32 s) ≡ false
    → is_data (get_word32 s) ≡ true
    → read_packet inner (reading s ev) ev
      ≡ Decode.◌>>=◌
          (data_packet inner
            (remove_bits s 13)
            ev
            (bit_and (get_word32 s / 2 ^ 26) 0xF)
            (bit_and (get_word32 s / 2 ^ 19) 0x7F))
          (λ r. returns (reading r.0 r.1, false))
unfolding read_packet
read_packet-data inner s ev e1 e2 e3 = rw (read_packet, e1, e2, e3) refl

read_packet-trailer :
    (inner : ℕ) (s : Bitstream) (ev : SctEvent)
    → is_error (get_word32 s) ≡ false
    → is_config (get_word32 s) ≡ false
    → is_data (get_word32 s) ≡ false
    → is_nodata (get_word32 s) ≡ false
    → is_trailer (get_word32 s) ≡ true
    → read_packet inner (reading s ev) ev ≡ returns (reading s ev, true)
unfolding read_packet
read_packet-trailer inner s ev e1 e2 e3 e4 e5 = rw (read_packet, e1, e2, e3, e4, e5) refl

-- A round at a packet, and at a trailer.
pub round-packet :
    (inner k led other : ℕ) (s : Bitstream) (ev : SctEvent) (p : Packet) (rest : List ℕ)
    → IsPacket p
    → (chip : IsChip p.chip) → Ends rest
    → StandsAt s (packet_bits p rest)
    → IsCounted s
    → suc (length p.others) < inner
    → (s' : Bitstream) × (round inner k led other (reading s ev)
        ≡ returns (reading s' (with_hits ev chip.0 p.channel (patterns p)), false))
      × StandsAt s' rest
      × IsCounted s'
round-packet inner k led other s ev p rest fit chip ends h counted enough =
    let w : ℕ = get_word32 s in
    let bits = hit_bits-IsBit (patterns p) rest ends.0 in
    let (r, small, e) =
      window_at_packet p.chip p.channel (hit_bits (patterns p) ++ rest) fit.chip_fits
        fit.channel_fits bits in
    let seen : w ≡ ((1 * 2 ^ 4 + p.chip) * 2 ^ 7 + p.channel) * 2 ^ 19 + r = h.window ∙ e in
    let next : StandsAt (remove_bits s 13) (hit_bits (patterns p) ++ rest) =
      remove_bits-StandsAt s 13 (packet_bits p rest) h (omega arith) (omega arith) in
    let (s', done, there, keeps) =
      data_packet-hits inner (remove_bits s 13) ev p.chip p.channel chip.0 p.first p.others rest
        chip.1 fit.patterns_fit ends next enough in
    (
      s',
      round-reading inner k led other s ev (
            Recognised.packet_no_header p.chip p.channel r w fit.chip_fits fit.channel_fits small
              seen)
          ∙ read_packet-data inner s ev
              (Recognised.packet_no_error p.chip p.channel r w fit.chip_fits fit.channel_fits small
                seen)
              (Recognised.packet_no_config p.chip p.channel r w fit.chip_fits fit.channel_fits small
                seen)
              (Recognised.packet_seen p.chip p.channel r w fit.chip_fits fit.channel_fits small
                seen)
          ∙ ap₂
              (λ c n.
                Decode.◌>>=◌ (data_packet inner (remove_bits s 13) ev c n)
                  (λ q. returns (reading q.0 q.1, false)))
              (Recognised.chip_seen p.chip p.channel r w fit.chip_fits fit.channel_fits small seen)
              (Recognised.channel_seen p.chip p.channel r w fit.chip_fits fit.channel_fits small
                seen)
          ∙ ap (λ d. Decode.◌>>=◌ d (λ q. returns (reading q.0 q.1, false))) done,
      there,
      keeps (remove_bits-IsCounted s 13 counted),
    )

pub round-trailer :
    (inner k led other : ℕ) (s : Bitstream) (ev : SctEvent) (pad : List ℕ)
    → All IsBit pad
    → StandsAt s (trailer_bits pad)
    → round inner k led other (reading s ev) ≡ returns (reading s ev, true)
round-trailer inner k led other s ev pad bits h =
    let w : ℕ = get_word32 s in
    let (r, small, e) = window_at_trailer pad bits in
    let seen : w ≡ 0x8000 * 2 ^ 16 + r = h.window ∙ e in
    round-reading inner k led other s ev (Recognised.trailer_no_header r w small seen)
    ∙ read_packet-trailer inner s ev (Recognised.trailer_no_error r w small seen)
        (Recognised.trailer_no_config r w small seen) (Recognised.trailer_no_data r w small seen)
        (Recognised.trailer_no_nodata r w small seen) (Recognised.trailer_seen r w small seen)
