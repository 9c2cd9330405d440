-- ===== src/Tracker/Decode/HitPacket.antt =====
-- The hits that the decoder makes of a packet of hits.
use faser_common.Common.{
  ℕ, zero, suc, ◌+◌, ◌*◌, ◌/◌, ◌%◌, ◌^◌, ◌≤◌, ◌<◌, ◌≡◌, refl, ap, ◌∙◌, List, [], ◌∷◌, ◌++◌, length,
  true, false, All, arith,
}
use faser_common.Common.{bit_and, some, inl, inr}
use faser_common.Common.Bits.{bit_and_mask, bit_and_shifted}
use faser_common.Common.Words.{u32}
use faser_common.Common.OrderedMap.{find}
use faser_common.Tracker.SctEvent.{
  SctEvent, chip_id_map, chip_address, chip_is_valid, add_hit, get_hits,
}
use faser_common.Tracker.SctEvent.Laws.{IsSctEvent, add_hit-found, chip_is_valid-index}
use faser_common.Tracker.Bitstream.{Bitstream, remove_bits, get_word32}
use faser_common.Tracker.Bitstream.Shift.{shifted, shifted-nil}
use faser_common.Tracker.Bitstream.Contract.{StandsAt, remove_bits-StandsAt, first_word}
use faser_common.Tracker.Bitstream.Counted.{IsCounted, remove_bits-IsCounted}
use faser_common.Common.{◌⊎◌}
use faser_common.Tracker.Decode
use faser_common.Tracker.Decode.{
  Decoded, returns, decoded_by, hit_of_chip, hit_loop, data_packet, has_leading_bit, is_trailer,
  next_channel,
}
use faser_common.Tracker.Decode.Loops.{hit_loop-end, hit_loop-hit, hit_loop-trailer}
use faser_common.Tracker.Decode.Hits.{
  IsBit, IsPattern, NoHit, Ends, hit_bits, window_at_hit, shifted_high,
}
use faser_common.Tracker.Decode.ChipHits.{
  with_hit, with_hits, numbered, hits_then, get_hits-with_hits,
}

pub hit_bits-IsBit : (ps rest : List ℕ) → All IsBit rest → All IsBit (hit_bits ps ++ rest)
hit_bits-IsBit [] rest bits = bits
hit_bits-IsBit (p ∷ ps) rest bits =
    (omega arith, (omega arith, (omega arith, (omega arith, hit_bits-IsBit ps rest bits))))

NoHit-IsBit : (rest : List ℕ) → NoHit rest → All IsBit rest
NoHit-IsBit [] h = tt
NoHit-IsBit (b ∷ bs) h = (omega (arith, h.0), h.1)

-- What the code reads in the window at a hit, and behind the last one.
module _ (w p r : ℕ) (one : 1 ≤ p) (h : p < 8) (small : r < 2 ^ 28)
    (e : w ≡ (8 + p) * 2 ^ 28 + r) where
  leading_bit : has_leading_bit w ≡ true
  leading_bit =
      let top : bit_and w 0x80000000 ≡ 0x80000000 = omega (arith, bit_and_shifted 31 1 w) in
      rw top refl

  no_trailer : is_trailer w ≡ false
  no_trailer =
      let top : bit_and w 0xFFFF0000 ≡ w / 2 ^ 16 % 2 ^ 16 * 2 ^ 16 = bit_and_shifted 16 16 w in
      ground (arith, top)

  pattern_read : bit_and (w / 2 ^ 28) 0x7 ≡ p
  pattern_read = omega (arith, bit_and_mask 3 (w / 2 ^ 28))

no_leading_bit : (rest : List ℕ) → NoHit rest → has_leading_bit (first_word rest) ≡ false
unfolding shifted
no_leading_bit [] h = ap has_leading_bit (shifted-nil 32 0 (omega arith))
no_leading_bit (b ∷ bs) h =
    let zero_bit : u32 (2 * 0 + b) ≡ 0 = omega (arith, h.0) in
    let (r, small, e) = shifted_high 31 0 bs h.1 (omega arith) in
    let window : first_word (b ∷ bs) ≡ r =
      ap (λ (t : ℕ). shifted 31 t bs) zero_bit ∙ e ∙ omega arith in
    let top : bit_and r 0x80000000 ≡ 0 = omega (arith, bit_and_shifted 31 1 r) in
    ap has_leading_bit window ∙ rw top refl

module _ (ev : SctEvent) (chip i : ℕ) (found : find (chip_address chip) chip_id_map ≡ some i) where
  valid_chip : chip_is_valid ev chip ≡ (true, record ev { m_chip_is_valid = true })
  unfolding chip_is_valid
  valid_chip = rw (chip_is_valid, found) refl

  next_channel-found : (strip : ℕ) → next_channel ev chip strip ≡ strip + 1
  next_channel-found strip = rw valid_chip refl

  hit_of_chip-valid :
      (strip p : ℕ)
      → hit_of_chip ev chip strip p ≡ decoded_by (add_hit (chip_is_valid ev chip).1 chip strip p)
  unfolding hit_of_chip
  hit_of_chip-valid strip p =
      let valid : (chip_is_valid ev chip).0 ≡ true = ap (λ t. t.0) valid_chip in
      rw (hit_of_chip, valid) refl

  hit_of_chip-found : (strip p : ℕ) → hit_of_chip ev chip strip p ≡ returns (with_hit ev i strip p)
  hit_of_chip-found strip p =
      hit_of_chip-valid strip p
      ∙ ap (λ t. decoded_by (add_hit t.1 chip strip p)) valid_chip
      ∙ ap decoded_by (add_hit-found (record ev { m_chip_is_valid = true }) chip strip p i found)

-- The loop behind a hit.
after_hit : ℕ → Bitstream → SctEvent → ℕ → ℕ → Decoded SctEvent → Decoded (Bitstream × SctEvent)
after_hit fuel s ev chip strip d = Decode.◌>>=◌ d (λ ev'.
    hit_loop fuel (remove_bits s 4) ev' chip (next_channel ev chip strip)
      (get_word32 (remove_bits s 4)))

-- The loop where no hit follows.
hits_end :
    (fuel : ℕ) (s : Bitstream) (ev : SctEvent) (chip strip : ℕ) (rest : List ℕ)
    → StandsAt s rest
    → (has_leading_bit (first_word rest) ≡ false)
      ⊎ ((has_leading_bit (first_word rest) ≡ true) × (is_trailer (first_word rest) ≡ true))
    → hit_loop (suc fuel) s ev chip strip (get_word32 s) ≡ returns (s, ev)
hits_end fuel s ev chip strip rest h (inl over) =
    hit_loop-end fuel s ev chip strip (get_word32 s) (ap has_leading_bit h.window ∙ over)
hits_end fuel s ev chip strip rest h (inr (led, seen)) =
    hit_loop-trailer fuel s ev chip strip (get_word32 s) (ap has_leading_bit h.window ∙ led)
      (ap is_trailer h.window ∙ seen)

hit_loop-hits :
    (ps : List ℕ) (fuel : ℕ) (s : Bitstream) (ev : SctEvent) (chip strip i : ℕ) (rest : List ℕ)
    → find (chip_address chip) chip_id_map ≡ some i
    → length ps < fuel
    → All IsPattern ps
    → Ends rest
    → StandsAt s (hit_bits ps ++ rest)
    → (s' : Bitstream) × (hit_loop fuel s ev chip strip (get_word32 s)
        ≡ returns (s', with_hits ev i strip ps))
      × StandsAt s' rest
      × (IsCounted s → IsCounted s')
unfolding after_hit
hit_loop-hits ps zero s ev chip strip i rest found enough fit none h = absurd (omega arith)
hit_loop-hits [] (suc fuel) s ev chip strip i rest found enough fit none h =
    (s, hits_end fuel s ev chip strip rest h none.1, h, λ counted. counted)
hit_loop-hits (p ∷ ps) (suc fuel) s ev chip strip i rest found enough fit none h =
    let w : ℕ = get_word32 s in
    let bits = hit_bits-IsBit ps rest none.0 in
    let (r, small, e) = window_at_hit p (hit_bits ps ++ rest) fit.0.1 bits in
    let seen : w ≡ (8 + p) * 2 ^ 28 + r = h.window ∙ e in
    let next = remove_bits-StandsAt s 4 (hit_bits (p ∷ ps) ++ rest) h (omega arith) (omega arith) in
    let (s', done, there, keeps) =
      hit_loop-hits ps fuel (remove_bits s 4) (with_hit ev i strip p) chip (strip + 1) i rest found
        (omega arith) fit.1 none next in
    (
      s',
      hit_loop-hit fuel s ev chip strip w (leading_bit w p r fit.0.0 fit.0.1 small seen)
            (no_trailer w p r fit.0.0 fit.0.1 small seen)
          ∙ ap (λ (t : ℕ). after_hit fuel s ev chip strip (hit_of_chip ev chip strip t))
              (pattern_read w p r fit.0.0 fit.0.1 small seen)
          ∙ ap (after_hit fuel s ev chip strip) (hit_of_chip-found ev chip i found strip p)
          ∙ ap
              (λ (t : ℕ).
                hit_loop fuel (remove_bits s 4) (with_hit ev i strip p) chip t
                  (get_word32 (remove_bits s 4)))
              (next_channel-found ev chip i found strip)
          ∙ done,
      there,
      λ counted. keeps (remove_bits-IsCounted s 4 counted),
    )

data_packet-leading :
    (fuel : ℕ) (s : Bitstream) (ev : SctEvent) (chip strip : ℕ)
    → has_leading_bit (get_word32 s) ≡ true
    → data_packet fuel s ev chip strip ≡ hit_loop fuel s ev chip strip (get_word32 s)
unfolding data_packet
data_packet-leading fuel s ev chip strip led = rw (data_packet, led) refl

-- A packet of hits, whatever they end at.
pub data_packet-hits :
    (fuel : ℕ) (s : Bitstream) (ev : SctEvent) (chip strip i p : ℕ) (ps rest : List ℕ)
    → find (chip_address chip) chip_id_map ≡ some i
    → All IsPattern (p ∷ ps)
    → Ends rest
    → StandsAt s (hit_bits (p ∷ ps) ++ rest)
    → suc (length ps) < fuel
    → (s' : Bitstream) × (data_packet fuel s ev chip strip
        ≡ returns (s', with_hits ev i strip (p ∷ ps)))
      × StandsAt s' rest
      × (IsCounted s → IsCounted s')
data_packet-hits fuel s ev chip strip i p ps rest found fit ends h enough =
    let bits = hit_bits-IsBit ps rest ends.0 in
    let (r, small, e) = window_at_hit p (hit_bits ps ++ rest) fit.0.1 bits in
    let led = leading_bit (get_word32 s) p r fit.0.0 fit.0.1 small (h.window ∙ e) in
    let (s', done, there, keeps) =
      hit_loop-hits (p ∷ ps) fuel s ev chip strip i rest found enough fit ends h in
    (s', data_packet-leading fuel s ev chip strip led ∙ done, there, keeps)

-- A data packet of a known chip whose stream stands at one or more hits, each a leading 1 and a
-- pattern of three bits that are not all 0, and then at no leading 1: with a round more than there are
-- hits, the decoder returns with the stream behind the hits, has put these behind the hits that the
-- chip has, with the strips counted on from the packet's channel, and has left the other chips' hits.
pub get_hits-data_packet :
    (fuel : ℕ) (s : Bitstream) (ev : SctEvent) (chip strip p : ℕ) (ps rest : List ℕ)
    → IsSctEvent ev
    → (chip_is_valid ev chip).0 ≡ true
    → All IsPattern (p ∷ ps)
    → NoHit rest
    → StandsAt s (hit_bits (p ∷ ps) ++ rest)
    → suc (length ps) < fuel
    → (s' : Bitstream) × (ev' : SctEvent) × (data_packet fuel s ev chip strip ≡ returns (s', ev'))
      × StandsAt s' rest
      × ((j : ℕ)
          → get_hits ev' j
            ≡ hits_then j (chip_address chip) (numbered strip (p ∷ ps)) (get_hits ev j))
get_hits-data_packet fuel s ev chip strip p ps rest v valid fit none h enough =
    let (i, found, small) = chip_is_valid-index ev chip valid in
    let ends : Ends rest = (NoHit-IsBit rest none, inl (no_leading_bit rest none)) in
    let (s', done, there, keeps) =
      data_packet-hits fuel s ev chip strip i p ps rest found fit ends h enough in
    let inside : i < length ev.m_hits = omega (arith, v.twelve_hits) in
    (
      s',
      with_hits ev i strip (p ∷ ps),
      done,
      there,
      λ j. get_hits-with_hits (p ∷ ps) ev (chip_address chip) i strip j found inside,
    )
