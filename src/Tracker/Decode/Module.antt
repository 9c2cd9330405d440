-- ===== src/Tracker/Decode/Module.antt =====
-- A module's two sides, from their words to its data.
use faser_common.Common.{
  ℕ, ◌+◌, ◌-◌, ◌*◌, ◌/◌, ◌^◌, ◌<◌, ◌≡◌, refl, sym, ap, ap₂, ◌∙◌, List, [], ◌∷◌, length, All, Bool,
  true, false, some, none, Option, bit_and, ◌==◌, not, ◌&&◌, if◌then◌else◌, length-append, subst,
  ==_iff, arith,
}
use faser_common.Common.Words.{u8}
use faser_common.Tracker.SctEvent.{SctEvent, get_hits, make_sct_event}
use faser_common.Tracker.Bitstream.{Bitstream, make_bitstream, remove_bits, get_word32}
use faser_common.Tracker.Bitstream.Shift.{bits_of, length-bits_of}
use faser_common.Tracker.Bitstream.Refine.{IsWord, all_bits}
use faser_common.Tracker.Bitstream.Contract.{
  StandsAt, first_word, remove_bits-StandsAt, make_bitstream-StandsAt,
}
use faser_common.Tracker.Bitstream.Counted.{
  IsCounted-available, remove_bits-IsCounted, make_bitstream-IsCounted,
}
use faser_common.Tracker.Decode
use faser_common.Tracker.Decode.{
  returns, Side, header_word, header_slot, round, side_loop, rounds, words_of_side, decode_side,
  decode_module, is_header,
}
use faser_common.Tracker.Decode.Hits.{IsBit}
use faser_common.Tracker.Decode.Layout.{Packet, packets_bits, side_bits, window_at_header}
use faser_common.Tracker.Decode.Encoded.{IsSound, packets_bits-IsBit, length-packets_bits}
use faser_common.Tracker.Decode.Sides.{packets_then, Takes, side_loop-packets}
use faser_common.Tracker.Decode.Total.{after_round, side_loop-round}
use faser_common.Tracker.Decode.Recognised

-- The loop over a side before its first round.
abbrev starting : Bitstream → Option SctEvent → Bool → Side
starting s slot has = record {
  stream = s;
  module_event = slot;
  has_event = has;
  praeamble_found = false;
  first = true;
}

-- Behind the header.
abbrev read_slot : Bitstream → Option SctEvent → Side
read_slot s slot = record {
  stream = s;
  module_event = slot;
  has_event = true;
  praeamble_found = true;
  first = false;
}

header_word-same :
    (led w other : ℕ)
    → is_header w ≡ true
    → (bit_and w 0xFFFFE000 == bit_and other 0xFFFFE000) ≡ true
    → header_word true led w other ≡ w
unfolding header_word
header_word-same led w other e same = rw (e, same) (agreed (led == 0))
  where
    agreed : (b : Bool) → (if b && not true then other else w) ≡ w
    agreed true = refl
    agreed false = refl

-- What a header makes of the side.
abbrev opened : ℕ → ℕ → Bitstream → Option SctEvent → ℕ → Side
opened k led s slot w = read_slot (remove_bits s 19) (
    header_slot (led == 0) slot
      (make_sct_event k (bit_and (w / 2 ^ 22) 0xf) (bit_and (w / 2 ^ 14) 0xff)))

round-opened :
    (inner k led other : ℕ) (s : Bitstream) (slot : Option SctEvent) (has : Bool)
    → is_header (header_word true led (get_word32 s) other) ≡ true
    → round inner k led other (starting s slot has)
      ≡ returns (opened k led s slot (header_word true led (get_word32 s) other), false)
unfolding round Decode.read_header
round-opened inner k led other s slot has seen = rw (round, seen) refl

round-first :
    (inner k led other w : ℕ) (s : Bitstream) (slot : Option SctEvent) (has : Bool)
    → header_word true led (get_word32 s) other ≡ w
    → is_header w ≡ true
    → round inner k led other (starting s slot has) ≡ returns (opened k led s slot w, false)
round-first inner k led other w s slot has e seen =
    round-opened inner k led other s slot has (ap is_header e ∙ seen)
    ∙ ap (λ (x : ℕ). returns (opened k led s slot x, false)) e

-- The value of the first 19 bits.
abbrev pub header_value : ℕ → ℕ → ℕ
header_value l1id bcid = (((58 * 2 ^ 4 + l1id) * 2 ^ 8 + bcid) * 2 + 1) * 2 ^ 13

length-all_bits : (ws : List ℕ) → length (all_bits ws) ≡ 24 * length ws
length-all_bits [] = omega arith
length-all_bits (w ∷ ws) =
    omega
      (arith, length-append (bits_of 24 w) (all_bits ws), length-bits_of 24 w, length-all_bits ws)

module _ (l1id bcid : ℕ) (hl : l1id < 2 ^ 4) (hb : bcid < 2 ^ 8) where
  -- The first word of a side.
  first_compared :
      (ws : List ℕ) (ps : List Packet) (pad : List ℕ)
      → All IsWord ws
      → All IsBit pad
      → all_bits ws ≡ side_bits l1id bcid ps pad
      → bit_and (get_word32 (make_bitstream ws)) 0xFFFFE000 ≡ header_value l1id bcid
  first_compared ws ps pad fit bits e =
      let h = make_bitstream-StandsAt ws fit in
      let (r, small, seen) =
        window_at_header l1id bcid (packets_bits ps pad) hl hb (packets_bits-IsBit ps pad bits) in
      Recognised.compared l1id bcid r (get_word32 (make_bitstream ws)) hl hb small
        (h.window ∙ ap first_word e ∙ seen)

  -- A side, of which the other one begins with the same header.
  side_decoded :
      (db : List (ℕ × List ℕ)) (k led : ℕ) (slot : Option SctEvent) (has : Bool) (ev : SctEvent)
      (ps : List Packet) (pad : List ℕ)
      → All IsWord (words_of_side db k led)
      → all_bits (words_of_side db k led) ≡ side_bits l1id bcid ps pad
      → All IsSound ps
      → All IsBit pad
      → bit_and (get_word32 (make_bitstream (words_of_side db k (1 - led)))) 0xFFFFE000
        ≡ header_value l1id bcid
      → header_slot (led == 0) slot (make_sct_event k l1id bcid) ≡ some ev
      → length ev.m_hits ≡ 12
      → (ev' : SctEvent) × (decode_side db k led (slot, has) ≡ returns (some ev', true))
        × Takes ps ev ev'
  unfolding decode_side after_round
  side_decoded db k led slot has ev ps pad fit e sound bits other_same made twelve =
      let ws = words_of_side db k led in
      let s = make_bitstream ws in
      let w : ℕ = get_word32 s in
      let other : ℕ = get_word32 (make_bitstream (words_of_side db k (1 - led))) in
      let n : ℕ = length ws in
      let behind = packets_bits ps pad in
      let stands = make_bitstream-StandsAt ws fit in
      let h : StandsAt s (side_bits l1id bcid ps pad) = subst (StandsAt s) e stands in
      let (r, small, seen) =
        window_at_header l1id bcid behind hl hb (packets_bits-IsBit ps pad bits) in
      let window : w ≡ header_value l1id bcid + r = h.window ∙ seen in
      let header = Recognised.header_seen l1id bcid r w hl hb small window in
      let compared = Recognised.compared l1id bcid r w hl hb small window in
      let long : 24 * n ≡ 19 + length behind = omega (arith, length-all_bits ws, ap length e) in
      let enough = length-packets_bits ps pad in
      let counted = make_bitstream-IsCounted ws in
      let same : (bit_and w 0xFFFFE000 == bit_and other 0xFFFFE000) ≡ true =
        (==_iff _ _).1 (compared ∙ sym other_same) in
      let next : StandsAt (remove_bits s 19) behind =
        remove_bits-StandsAt s 19 (side_bits l1id bcid ps pad) h (omega arith) (omega arith) in
      let (s', ev', done, takes) =
        side_loop-packets ps (50 * n + 100) (rounds n) k led other (remove_bits s 19) ev pad sound
          bits twelve next (remove_bits-IsCounted s 19 counted) (omega arith) (omega arith) in
      (
        ev',
        ap (λ d. Decode.◌>>=◌ d (λ sd. returns (sd.module_event, sd.has_event)))
            (side_loop-round (50 * n + 100) (rounds n) k led other (starting s slot has)
                (IsCounted-available s (side_bits l1id bcid ps pad) counted h (omega arith))
              ∙ ap (λ d. Decode.◌>>=◌ d (after_round (50 * n + 100) (rounds n) k led other))
                  (round-first (rounds n) k led other w s slot has
                      (header_word-same led w other header same) header
                    ∙ ap (λ slot'. returns (read_slot (remove_bits s 19) slot', false))
                        (ap₂ (λ a b. header_slot (led == 0) slot (make_sct_event k a b))
                            (Recognised.l1id_seen l1id bcid r w hl hb small window)
                            (Recognised.bcid_seen l1id bcid r w hl hb small window)
                          ∙ made))
              ∙ done),
        takes,
      )

-- What a module whose two sides hold these packets has.
pub record HoldsPackets (k l1id bcid : ℕ) (ps qs : List Packet) (ev : SctEvent) : Type 0 where
  pub hits :
      (j : ℕ)
      → get_hits ev j
        ≡ packets_then j qs (packets_then j ps (get_hits (make_sct_event k l1id bcid) j))
  pub l1id_read : ev.m_l1id ≡ l1id
  pub bcid_read : ev.m_bcid ≡ bcid
  pub module_read : ev.m_module_id ≡ u8 k

made_members :
    (k l1id bcid : ℕ)
    → l1id < 2 ^ 4
    → bcid < 2 ^ 8
    → (length (make_sct_event k l1id bcid).m_hits ≡ 12)
      × ((make_sct_event k l1id bcid).m_l1id ≡ l1id)
      × ((make_sct_event k l1id bcid).m_bcid ≡ bcid)
      × ((make_sct_event k l1id bcid).m_module_id ≡ u8 k)
unfolding make_sct_event
made_members k l1id bcid hl hb = (refl, omega arith, omega arith, refl)

-- A module of which the words of each side hold a header with the same l1id and bcid, packets of hits,
-- a trailer, and anything behind it, each packet one or more hits of a chip that the module has:
-- decoding it returns an object with that l1id, bcid and the module's number. The hits of each chip
-- are those of the first side's packets for it and then of the second side's, in order, each packet's
-- strips counted on from its channel, and no others.
pub decode_module-packets :
    (db : List (ℕ × List ℕ)) (k l1id bcid : ℕ) (ps qs : List Packet) (pad pad' : List ℕ)
    → l1id < 2 ^ 4
    → bcid < 2 ^ 8
    → All IsWord (words_of_side db k 0)
    → All IsWord (words_of_side db k 1)
    → all_bits (words_of_side db k 0) ≡ side_bits l1id bcid ps pad
    → all_bits (words_of_side db k 1) ≡ side_bits l1id bcid qs pad'
    → All IsSound ps
    → All IsSound qs
    → All IsBit pad
    → All IsBit pad'
    → (ev : SctEvent) × (decode_module db k none ≡ returns (some ev))
      × HoldsPackets k l1id bcid ps qs ev
unfolding decode_module
decode_module-packets db k l1id bcid ps qs pad pad' hl hb fit fit' e e' sound sound' bits bits' =
    let (twelve, l, b, m) = made_members k l1id bcid hl hb in
    let made : SctEvent = make_sct_event k l1id bcid in
    let compared = first_compared l1id bcid hl hb (words_of_side db k 0) ps pad fit bits e in
    let compared' = first_compared l1id bcid hl hb (words_of_side db k 1) qs pad' fit' bits' e' in
    let (ev, done, takes) =
      side_decoded l1id bcid hl hb db k 0 none false made ps pad fit e sound bits compared' refl
        twelve in
    let (ev', done', takes') =
      side_decoded l1id bcid hl hb db k 1 (some ev) true ev qs pad' fit' e' sound' bits' compared
        refl (takes.chips ∙ twelve) in
    (
      ev',
      ap (λ d. Decode.◌>>=◌ d (λ r. Decode.◌>>=◌ (decode_side db k 1 r) (λ r'. returns r'.0))) done
          ∙ ap (λ d. Decode.◌>>=◌ d (λ r. returns r.0)) done',
      record {
        hits = λ j. takes'.hits j ∙ ap (packets_then j qs) (takes.hits j);
        l1id_read = takes'.l1id ∙ takes.l1id ∙ l;
        bcid_read = takes'.bcid ∙ takes.bcid ∙ b;
        module_read = takes'.module_id ∙ takes.module_id ∙ m;
      },
    )
