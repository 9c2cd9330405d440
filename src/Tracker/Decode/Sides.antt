-- ===== src/Tracker/Decode/Sides.antt =====
-- A module whose two sides hold a header, packets of hits and a trailer.
use faser_common.Common.{
  ℕ, zero, suc, ◌+◌, ◌≤◌, ◌≡◌, inl, inr, refl, ap, ◌∙◌, List, [], ◌∷◌, length, All, Result,
  Bool-cases, arith,
}
use faser_common.Common.Words.{u8}
use faser_common.Tracker.SctEvent.{SctEvent, TrackerDataException, chip_address, get_hits}
use faser_common.Tracker.SctEvent.Laws.{length-push_at}
use faser_common.Tracker.Bitstream.{Bitstream, bits_available}
use faser_common.Tracker.Bitstream.Contract.{StandsAt}
use faser_common.Tracker.Bitstream.Counted.{IsCounted, IsCounted-available}
use faser_common.Tracker.Decode
use faser_common.Tracker.Decode.{
  Decoded, returns, Side, read_header, header_slot, round, side_loop, rounds, words_of_side,
  decode_side, decode_module, is_header,
}
use faser_common.Tracker.Decode.Hits.{IsBit}
use faser_common.Tracker.Decode.ChipHits.{
  with_hit, with_hits, numbered, hits_then, get_hits-with_hits,
}
use faser_common.Tracker.Decode.Layout.{Packet, patterns, packet_bits, packets_bits}
use faser_common.Tracker.Decode.Encoded.{
  IsChip, IsSound, reading, packets_bits-Ends, length-packet_bits, length-packets_bits,
  round-packet, round-trailer,
}
use faser_common.Tracker.Decode.Total.{after_round, side_loop-end, side_loop-round}

-- The hits of chip `j` after those of packets.
abbrev pub packets_then :
    ℕ
    → List Packet
    → Result TrackerDataException (List (ℕ × ℕ))
    → Result TrackerDataException (List (ℕ × ℕ))
packets_then j [] old = old
packets_then j (p ∷ ps) old =
    packets_then j ps (hits_then j (chip_address p.chip) (numbered p.channel (patterns p)) old)

-- What packets make of a module's data.
pub record Takes (ps : List Packet) (ev ev' : SctEvent) : Type 0 where
  pub hits : (j : ℕ) → get_hits ev' j ≡ packets_then j ps (get_hits ev j)
  pub l1id : ev'.m_l1id ≡ ev.m_l1id
  pub bcid : ev'.m_bcid ≡ ev.m_bcid
  pub module_id : ev'.m_module_id ≡ ev.m_module_id
  pub chips : length ev'.m_hits ≡ length ev.m_hits

with_hits-keeps :
    (qs : List ℕ) (ev : SctEvent) (i strip : ℕ)
    → ((with_hits ev i strip qs).m_l1id ≡ ev.m_l1id)
      × ((with_hits ev i strip qs).m_bcid ≡ ev.m_bcid)
      × ((with_hits ev i strip qs).m_module_id ≡ ev.m_module_id)
      × (length (with_hits ev i strip qs).m_hits ≡ length ev.m_hits)
with_hits-keeps [] ev i strip = (refl, refl, refl, refl)
with_hits-keeps (q ∷ qs) ev i strip =
    let (a, b, c, d) = with_hits-keeps qs (with_hit ev i strip q) i (strip + 1) in
    (a, b, c, d ∙ length-push_at i (u8 strip, u8 q) ev.m_hits)

-- A packet before others.
Takes-next :
    (p : Packet) (ps : List Packet) (ev ev' : SctEvent) (chip : IsChip p.chip)
    → length ev.m_hits ≡ 12
    → Takes ps (with_hits ev chip.0 p.channel (patterns p)) ev'
    → Takes (p ∷ ps) ev ev'
Takes-next p ps ev ev' chip twelve h =
    let (a, b, c, d) = with_hits-keeps (patterns p) ev chip.0 p.channel in
    record {
      hits = λ j.
          h.hits j
          ∙ ap (packets_then j ps) (
              get_hits-with_hits (patterns p) ev (chip_address p.chip) chip.0 p.channel j chip.1
                (omega (arith, chip.2)));
      l1id = h.l1id ∙ a;
      bcid = h.bcid ∙ b;
      module_id = h.module_id ∙ c;
      chips = h.chips ∙ d;
    }

-- The loop behind the header, with a round for each bit.
pub side_loop-packets :
    (ps : List Packet) (fuel inner k led other : ℕ) (s : Bitstream) (ev : SctEvent) (pad : List ℕ)
    → All IsSound ps
    → All IsBit pad
    → length ev.m_hits ≡ 12
    → StandsAt s (packets_bits ps pad)
    → IsCounted s
    → length (packets_bits ps pad) ≤ fuel
    → length (packets_bits ps pad) ≤ inner
    → (s' : Bitstream) × (ev' : SctEvent) × (side_loop fuel inner k led other (reading s ev)
        ≡ returns (reading s' ev'))
      × Takes ps ev ev'
unfolding after_round
side_loop-packets [] zero inner k led other s ev pad sound bits twelve h counted few few' =
    absurd (omega (arith, length-packets_bits [] pad))
side_loop-packets (p ∷ ps) zero inner k led other s ev pad sound bits twelve h counted few few' =
    absurd (omega (arith, length-packets_bits (p ∷ ps) pad))
side_loop-packets [] (suc fuel) inner k led other s ev pad sound bits twelve h counted few few' =
    let same : Takes [] ev ev = record {
      hits = λ j. refl;
      l1id = refl;
      bcid = refl;
      module_id = refl;
      chips = refl;
    } in
    elim (Bool-cases (bits_available s)) [
      | inr over ↦ (s, ev, side_loop-end fuel inner k led other (reading s ev) over, same)
      | inl some_left ↦ (
        s,
        ev,
        side_loop-round fuel inner k led other (reading s ev) some_left
            ∙ ap (λ d. Decode.◌>>=◌ d (after_round fuel inner k led other))
                (round-trailer inner k led other s ev pad bits h),
        same,
      )
    ]
side_loop-packets (p ∷ ps) (suc fuel) inner k led other s ev pad sound bits twelve h counted few
      few' =
    let rest = packets_bits ps pad in
    let long = length-packet_bits p rest in
    let left = length-packets_bits ps pad in
    let (fit, chip) = sound.0 in
    let (s', once, next, counted') =
      round-packet inner k led other s ev p rest fit chip (packets_bits-Ends ps pad sound.1 bits) h
        counted (omega arith) in
    let ev1 : SctEvent = with_hits ev chip.0 p.channel (patterns p) in
    let kept = with_hits-keeps (patterns p) ev chip.0 p.channel in
    let (s'', ev', done, takes) =
      side_loop-packets ps fuel inner k led other s' ev1 pad sound.1 bits (kept.3 ∙ twelve) next
        counted' (omega arith) (omega arith) in
    (
      s'',
      ev',
      side_loop-round fuel inner k led other (reading s ev)
            (IsCounted-available s (packet_bits p rest) counted h (omega arith))
          ∙ ap (λ d. Decode.◌>>=◌ d (after_round fuel inner k led other)) once
          ∙ done,
      Takes-next p ps ev ev' chip twelve takes,
    )
