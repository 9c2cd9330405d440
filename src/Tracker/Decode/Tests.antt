-- ===== src/Tracker/Decode/Tests.antt =====
-- The stream and the decoding of module data at concrete inputs.
use faser_common.Common.{
  ℕ, suc, ◌+◌, ◌≡◌, refl, List, [], ◌∷◌, ◌++◌, drop, length, true, false, arith,
}
use faser_common.Common.{ok, throw, ◌==◌, if◌then◌else◌, Option, none, some, ◌>>=◌}
use faser_common.Common.Words.{word_bytes, u8}
use faser_common.Common.OrderedMap.{find}
use faser_common.Tracker.{decode_frames, TrbEvent}
use faser_common.Tracker.SctEvent.{
  SctEvent, TrackerDataException, unknown_chip, make_sct_event, chip_is_valid, chip_address,
  add_hit, get_hits, get_n_hits_all, push_at, vector_at, add_error,
}
use faser_common.Tracker.SctEvent.Laws.{get_hits-add_hit}
use faser_common.Tracker.Bitstream.{
  Bitstream, make_bitstream, remove_bits, bits_available, get_word32, refill, fill_rest, mask_loop,
}
use faser_common.Tracker.Bitstream.Refine.{all_bits}
use faser_common.Tracker.Bitstream.Contract.{
  StandsAt, removed, total, first_word, get_word32-removed, make_bitstream-StandsAt,
}
use faser_common.Tracker.Bitstream.Cut.{bits_available-remove_bits}
use faser_common.Tracker.Decode.{
  Decoded, decode_module, make_tracker_data_fragment, returns, decode_side, side_loop, round,
  read_header, read_rest, read_slot, read_packet, header_word, error_of_chip, hit_of_chip, hit_loop,
  data_packet, skip_loop,
}
use faser_common.Tracker.Decode.Total.{SlotsFit}
use faser_common.Tracker.Decode.ChipHits.{hits_then, numbered}
use faser_common.Tracker.Decode.HitPacket.{get_hits-data_packet}
use faser_common.Tracker.Decode.Whole.{make_tracker_data_fragment-returns}

-- A header with l1id 5 and bcid 66, a packet of chip 2, channel 9 with hits 1 and 3, and a trailer.
abbrev side_words : List ℕ
side_words = 0xE950A9 ∷ 0x099B80 ∷ 0x000000 ∷ []

abbrev removals : List ℕ
removals = 19 ∷ 13 ∷ 4 ∷ 4 ∷ 31 ∷ []

get_word32-removed_example :
    get_word32 (removed (make_bitstream side_words) removals)
    ≡ first_word (drop (total removals) (all_bits side_words))
get_word32-removed_example = get_word32-removed side_words removals (omega arith) (omega arith)

abbrev short_side : List ℕ
short_side = 0xE950A9 ∷ 0x099B80 ∷ []

bits_available-remove_bits_example :
    (bits_available (remove_bits (make_bitstream short_side) 19) ≡ false)
    × (length (drop 19 (all_bits short_side)) + (8 + 19) ≡ 56)
unfolding make_bitstream
bits_available-remove_bits_example =
    bits_available-remove_bits (make_bitstream short_side) (all_bits short_side) 19 0x099B80
      (make_bitstream-StandsAt short_side (omega arith)) refl (omega arith) (omega arith)
      (omega arith) (omega arith)

abbrev an_event : SctEvent
unfolding make_sct_event
an_event = make_sct_event 3 5 66

get_hits-add_hit_example :
    ((chip_is_valid an_event 2).0 ≡ true
      → ((add_hit an_event 2 17 5).1 ≡ ok tt)
        × (get_n_hits_all (add_hit an_event 2 17 5).0.m_hits ≡ suc (get_n_hits_all an_event.m_hits))
        × ((j : ℕ)
            → get_hits (add_hit an_event 2 17 5).0 j ≡ (
                if j == chip_address 2
                then (get_hits an_event j >>= λ v. ok (v ++ ((u8 17, u8 5) ∷ [])))
                else get_hits an_event j)))
    × ((chip_is_valid an_event 2).0 ≡ false
        → ((add_hit an_event 2 17 5).1 ≡ throw unknown_chip)
          × ((add_hit an_event 2 17 5).0.m_hits ≡ an_event.m_hits))
unfolding make_sct_event
get_hits-add_hit_example =
    get_hits-add_hit an_event 2 17 5 record { twelve_hits = refl; twelve_errors = refl }

-- Both sides hold the same words; the hits of both go to the same chip.
abbrev hits_of : Decoded (Option SctEvent) → List (ℕ × ℕ)
hits_of (returns (some ev)) = vector_at 2 ev.m_hits
hits_of d = []

hits_decoded :
    hits_of (decode_module ((768, side_words) ∷ (769, side_words) ∷ []) 3 none)
    ≡ (9, 1) ∷ (10, 3) ∷ (9, 1) ∷ (10, 3) ∷ []
unfolding decode_module decode_side side_loop round read_header read_rest read_slot read_packet
    header_word error_of_chip hit_of_chip hit_loop data_packet skip_loop make_bitstream remove_bits
    refill fill_rest mask_loop make_sct_event add_hit add_error chip_is_valid push_at find
hits_decoded = refl

abbrev board_words : List ℕ
board_words =
    0x00000007 ∷ 0x48000042 ∷ 0x93E950A9 ∷ 0x9B099B80 ∷ 0xA3000000 ∷ 0xEBE950A9 ∷ 0xF3099B80
    ∷ 0xFB000000 ∷ 0x01000000 ∷ []

make_tracker_data_fragment-returns_example :
    (ev : TrbEvent) × (slots : List (Option SctEvent)) × (make_tracker_data_fragment 0
        (word_bytes board_words)
        36
      ≡ returns (ev, slots))
    × (decode_frames {E = TrackerDataException} 0 (word_bytes board_words) 36 ≡ ok ev)
    × (length slots ≡ 8)
    × SlotsFit 0 slots
make_tracker_data_fragment-returns_example =
    make_tracker_data_fragment-returns 0 (word_bytes board_words) 36 (omega arith)

-- Two hits and sixteen zeros.
abbrev hit_words : List ℕ
hit_words = 0x9B0000 ∷ []

abbrev zeros : List ℕ
zeros = 0 ∷ 0 ∷ 0 ∷ 0 ∷ 0 ∷ 0 ∷ 0 ∷ 0 ∷ 0 ∷ 0 ∷ 0 ∷ 0 ∷ 0 ∷ 0 ∷ 0 ∷ 0 ∷ []

get_hits-data_packet_example :
    (s' : Bitstream) × (ev' : SctEvent) × (data_packet 3 (make_bitstream hit_words) an_event 2 9
      ≡ returns (s', ev'))
    × StandsAt s' zeros
    × ((j : ℕ)
        → get_hits ev' j
          ≡ hits_then j (chip_address 2) (numbered 9 (1 ∷ 3 ∷ [])) (get_hits an_event j))
unfolding make_sct_event chip_is_valid find
get_hits-data_packet_example =
    get_hits-data_packet 3 (make_bitstream hit_words) an_event 2 9 1 (3 ∷ []) zeros
      record { twelve_hits = refl; twelve_errors = refl } refl (omega arith) (refl, omega arith)
      (make_bitstream-StandsAt hit_words (omega arith)) (omega arith)
