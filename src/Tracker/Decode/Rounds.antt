-- ===== src/Tracker/Decode/Rounds.antt =====
-- A round of the loop over a side.
use faser_common.Common.{
  ℕ, suc, ◌-◌, ◌/◌, ◌^◌, ◌≤◌, ◌<◌, ◌≡◌, refl, subst, Bool, true, false, ◌&&◌, Bool-cases, inl, inr,
  arith,
}
use faser_common.Common.{bit_and, ◌==◌, Option, none, some}
use faser_common.Common.Bits.{bit_and_mask}
use faser_common.Tracker.SctEvent.{SctEvent, make_sct_event}
use faser_common.Tracker.Bitstream.{remove_bits, get_word32, bits_available}
use faser_common.Tracker.Decode.{
  returns, ◌>>=◌, error_of_chip, data_packet, skip_loop, is_error, is_config, is_data, is_nodata,
  is_trailer, is_header, Side, header_slot, read_header, read_packet, read_rest, read_slot, round,
  header_word,
}
use faser_common.Tracker.Decode.Progress.{Left, Left-available}
use faser_common.Tracker.Decode.Packets.{
  Returns, Returns-bind, Returns-moved, IsDecoded, error_of_chip-Returns,
}
use faser_common.Tracker.Decode.Loops.{Behind, data_packet-Returns, skip_loop-less}

-- The module's pointer is null or points to data of module `k`.
abbrev pub SlotFits : ℕ → Option SctEvent → Type 0
SlotFits k none = Unit {0}
SlotFits k (some ev) = IsDecoded k ev

-- `sctEvent` is null, or the module's pointer is not.
abbrev pub PointerFits : Bool → Option SctEvent → Type 0
PointerFits true none = ⊥
PointerFits true (some ev) = Unit {0}
PointerFits false slot = Unit {0}

abbrev pub SideFits : ℕ → Side → Type 0
SideFits k sd = SlotFits k sd.module_event × PointerFits sd.has_event sd.module_event

-- What a round leaves: at most `m` of the stream, unless it met a trailer.
abbrev pub RoundFits : ℕ → ℕ → Side × Bool → Type 0
RoundFits k m (sd, true) = SideFits k sd
RoundFits k m (sd, false) = SideFits k sd × Left sd.stream m

make_sct_event-IsDecoded :
    (k w : ℕ)
    → IsDecoded k (make_sct_event k (bit_and (w / 2 ^ 22) 0xf) (bit_and (w / 2 ^ 14) 0xff))
unfolding make_sct_event
make_sct_event-IsDecoded k w = record {
  chips = record { twelve_hits = refl; twelve_errors = refl };
  module_fits = refl;
  l1id_fits = omega (arith, bit_and_mask 4 (w / 2 ^ 22));
  bcid_fits = omega (arith, bit_and_mask 8 (w / 2 ^ 14));
  no_mismatch = refl;
}

header_slot-SlotFits :
    (k : ℕ) (first_side : Bool) (slot : Option SctEvent) (made : SctEvent)
    → SlotFits k slot
    → IsDecoded k made
    → SlotFits k (header_slot first_side slot made)
      × PointerFits true (header_slot first_side slot made)
header_slot-SlotFits k true slot made h v = (v, tt)
header_slot-SlotFits k false none made h v = (v, tt)
header_slot-SlotFits k false (some ev) made h v = (h, tt)

read_header-RoundFits :
    (k m led w : ℕ) (sd : Side)
    → SideFits k sd
    → Left sd.stream m
    → bits_available sd.stream ≡ true
    → RoundFits k (m - 1) (read_header k led w sd, false)
unfolding read_header
read_header-RoundFits k m led w sd fits left more =
    let made = make_sct_event k (bit_and (w / 2 ^ 22) 0xf) (bit_and (w / 2 ^ 14) 0xff) in
    (
      header_slot-SlotFits k (led == 0) sd.module_event made fits.0 (make_sct_event-IsDecoded k w),
      Left-available sd.stream 19 m (omega arith) (omega arith) left more,
    )

pointed : (has : Bool) (ev : SctEvent) → PointerFits has (some ev)
pointed true ev = tt
pointed false ev = tt

-- The packets behind a header.
module _ (fuel k m : ℕ) (sd : Side) (ev : SctEvent) (v : IsDecoded k ev) (fits : SideFits k sd)
    (left : Left sd.stream m) (more : bits_available sd.stream ≡ true) (enough : m < fuel) where
  -- What is left behind a packet of `n` bits.
  after_bits : (n : ℕ) → 1 ≤ n → n ≤ 31 → Left (remove_bits sd.stream n) (m - 1)
  after_bits n one few = Left-available sd.stream n m one few left more

  error_packet :
      (chip err : ℕ)
      → Returns
          (error_of_chip ev chip err >>= λ ev'.
            returns
              (record sd { stream = remove_bits sd.stream 11; module_event = some ev' }, false))
          (RoundFits k (m - 1))
  error_packet chip err =
      Returns-bind (error_of_chip ev chip err) _ (IsDecoded k) (RoundFits k (m - 1))
        (error_of_chip-Returns k ev chip v err)
        (λ ev' v'. ((v', pointed sd.has_event ev'), after_bits 11 (omega arith) (omega arith)))

  hits_packet :
      (chip channel : ℕ)
      → Returns
          (data_packet (suc fuel) (remove_bits sd.stream 13) ev chip channel >>= λ r.
            returns (record sd { stream = r.0; module_event = some r.1 }, false))
          (RoundFits k (m - 1))
  hits_packet chip channel =
      Returns-bind (data_packet (suc fuel) (remove_bits sd.stream 13) ev chip channel) _
        (Behind k (m - 1)) (RoundFits k (m - 1))
        (data_packet-Returns fuel (m - 1) k (remove_bits sd.stream 13) ev chip channel
          (after_bits 13 (omega arith) (omega arith)) (omega arith) v)
        (λ r h. ((h.1, pointed sd.has_event r.1), h.0))

  skipped :
      is_data (get_word32 sd.stream) ≡ false
      → (get_word32 sd.stream == 0) ≡ false
      → Returns
          (skip_loop (suc fuel) sd.stream >>= λ s. returns (record sd { stream = s }, false))
          (RoundFits k (m - 1))
  skipped e e' =
      Returns-bind (skip_loop (suc fuel) sd.stream) _ (λ s. Left s (m - 1)) (RoundFits k (m - 1))
        (skip_loop-less fuel m sd.stream left enough e e') (λ s h. (fits, h))

  read_packet-Returns : Returns (read_packet (suc fuel) sd ev) (RoundFits k (m - 1))
  unfolding read_packet
  read_packet-Returns =
      let w = get_word32 sd.stream in
      elim (Bool-cases (is_error w)) [
        | inl e1 ↦
            rw (read_packet, e1)
              (error_packet (bit_and (w / 2 ^ 25) 0xF) (bit_and (w / 2 ^ 22) 0x7))
        | inr e1 ↦ elim (Bool-cases (is_config w)) [
          | inl e2 ↦ rw (read_packet, e1, e2) (fits, after_bits 28 (omega arith) (omega arith))
          | inr e2 ↦ elim (Bool-cases (is_data w)) [
            | inl e3 ↦
                rw (read_packet, e1, e2, e3)
                  (hits_packet (bit_and (w / 2 ^ 26) 0xF) (bit_and (w / 2 ^ 19) 0x7F))
            | inr e3 ↦ elim (Bool-cases (is_nodata w)) [
              | inl e4 ↦
                  rw (read_packet, e1, e2, e3, e4) (fits, after_bits 3 (omega arith) (omega arith))
              | inr e4 ↦ elim (Bool-cases (is_trailer w)) [
                | inl e5 ↦ rw (read_packet, e1, e2, e3, e4, e5) fits
                | inr e5 ↦ elim (Bool-cases (w == 0)) [
                  | inl e6 ↦
                      rw (read_packet, e1, e2, e3, e4, e5, e6)
                        (fits, after_bits 1 (omega arith) (omega arith))
                  | inr e6 ↦ elim (Bool-cases (w == 0x80000000)) [
                    | inl e7 ↦
                        rw (read_packet, e1, e2, e3, e4, e5, e6, e7)
                          (fits, after_bits 1 (omega arith) (omega arith))
                    | inr e7 ↦ rw (read_packet, e1, e2, e3, e4, e5, e6, e7) (skipped e3 e6)
                  ]
                ]
              ]
            ]
          ]
        ]
      ]

module _ (sd : Side) (fuel : ℕ) where
  no_header :
      (sd.praeamble_found && sd.has_event) ≡ false
      → read_rest fuel sd
        ≡ returns (record sd { stream = remove_bits sd.stream 1; praeamble_found = false }, false)
  unfolding read_rest
  no_header e = simp (e, read_rest)

  a_header :
      (sd.praeamble_found && sd.has_event) ≡ true
      → read_rest fuel sd ≡ read_slot fuel sd sd.module_event
  unfolding read_rest
  a_header e = simp (e, read_rest)

rest_slot :
    (fuel k m : ℕ) (sd : Side) (slot : Option SctEvent)
    → sd.module_event ≡ slot
    → sd.has_event ≡ true
    → SideFits k sd
    → Left sd.stream m
    → bits_available sd.stream ≡ true
    → m < fuel
    → Returns (read_slot (suc fuel) sd slot) (RoundFits k (m - 1))
unfolding read_slot
rest_slot fuel k m sd none e has fits left more enough =
    absurd (null_pointed sd.has_event sd.module_event e has fits.1)
  where
    null_pointed :
        (has : Bool) (slot : Option SctEvent) → slot ≡ none → has ≡ true → PointerFits has slot → ⊥
    null_pointed true none e h p = p
    null_pointed true (some ev) e h p = cc
    null_pointed false slot e h p = cc
rest_slot fuel k m sd (some ev) e has fits left more enough =
    read_packet-Returns fuel k m sd ev (subst (SlotFits k) e fits.0) fits left more enough

read_rest-Returns :
    (fuel k m : ℕ) (sd : Side)
    → SideFits k sd
    → Left sd.stream m
    → bits_available sd.stream ≡ true
    → m < fuel
    → Returns (read_rest (suc fuel) sd) (RoundFits k (m - 1))
unfolding read_rest
read_rest-Returns fuel k m sd fits left more enough =
    elim (Bool-cases (sd.praeamble_found && sd.has_event)) [
      | inr e ↦
          Returns-moved _ _ (RoundFits k (m - 1)) (no_header sd (suc fuel) e)
            (fits, Left-available sd.stream 1 m (omega arith) (omega arith) left more)
      | inl e ↦ Returns-moved _ _ (RoundFits k (m - 1)) (a_header sd (suc fuel) e) (
          rest_slot fuel k m sd sd.module_event refl (both sd.praeamble_found sd.has_event e) fits
            left more enough)
    ]
  where
    both : (a b : Bool) → (a && b) ≡ true → b ≡ true
    both true b e = e
    both false b e = cc

pub round-Returns :
    (fuel k m led other : ℕ) (sd : Side)
    → SideFits k sd
    → Left sd.stream m
    → bits_available sd.stream ≡ true
    → m < fuel
    → Returns (round (suc fuel) k led other sd) (RoundFits k (m - 1))
unfolding round
round-Returns fuel k m led other sd fits left more enough =
    let w = header_word sd.first led (get_word32 sd.stream) other in
    elim (Bool-cases (is_header w)) [
      | inl e ↦
          rw (round, e)
            (read_header-RoundFits k m led w (record sd { first = false }) fits left more)
      | inr e ↦
          rw (round, e)
            (read_rest-Returns fuel k m (record sd { first = false }) fits left more enough)
    ]
