-- ===== src/Tracker/Tests.antt =====
-- A readout of one module with both channels.
use faser_common.Common.{ℕ, ◌*◌, ◌≡◌, refl, List, [], ◌∷◌, ◌++◌, length, true, ok, arith, ◌==◌}
use faser_common.Common.OrderedMap.{find, insert}
use faser_common.Common.Words.{word_bytes}
use faser_common.Daq.Defs.{EFormatException}
use faser_common.Checksum.{checksum_of_words}
use faser_common.Common.{◌+◌, ◌%◌, map, false}
use faser_common.Tracker.Frames.{stamped}
use faser_common.Tracker.Lost.{valid-lost_frame}
use faser_common.Tracker.{frame_loop, fresh_event, TrbEvent, decode_frames, valid, push_module}
use faser_common.Tracker.Modules.{words_under, words_of, sorted_out}
use faser_common.Tracker.Readout.{body, readout, decode_frames-readout}

abbrev hits : List (ℕ × ℕ × ℕ)
hits = (0, 3, 500) ∷ (1, 3, 600) ∷ (0, 3, 700) ∷ []

abbrev crc : ℕ
crc = 16395303

crc_agrees : (crc == checksum_of_words (readout 7 1234 77 hits crc)) ≡ true
unfolding checksum_of_words
crc_agrees = refl

sorted_out-hits : sorted_out hits [] ≡ (768, 500 ∷ 700 ∷ []) ∷ (769, 600 ∷ []) ∷ []
unfolding sorted_out push_module find insert
sorted_out-hits = refl

decode_frames-readout_example :
    (ev : TrbEvent) × (decode_frames {E = EFormatException} 0
        (word_bytes (readout 7 1234 77 hits crc) ++ (9 ∷ []))
        (4 * length (readout 7 1234 77 hits crc))
      ≡ ok ev)
    × (ev.m_event_id ≡ 1234)
    × (ev.m_bc_id ≡ 77)
    × ((key : ℕ) → words_under key ev.m_mod_db ≡ words_of key hits)
    × (valid ev ≡ (crc == checksum_of_words (readout 7 1234 77 hits crc)))
decode_frames-readout_example =
    decode_frames-readout 0 7 1234 77 hits crc (9 ∷ []) (omega arith) (omega arith) (omega arith)
      (omega arith) (omega arith)

valid-lost_frame_example :
    valid (
      frame_loop
        (stamped 7 ((0, 0, 1234) ∷ (1, 0, 77) ∷ map body ((0, 3, 500) ∷ []))
          ++ stamped ((7 + 3 + 1) % 8) (map body ((0, 3, 700) ∷ []) ++ ((0, 1, crc) ∷ [])))
        false
        0xf
        (fresh_event 0 crc))
    ≡ false
valid-lost_frame_example =
    valid-lost_frame 0 crc 7 1234 77 ((0, 3, 500) ∷ []) ((0, 3, 700) ∷ []) crc (omega arith)
      (omega arith) (omega arith) (omega arith) (omega arith) (omega arith)
