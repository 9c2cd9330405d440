-- ===== src/Tracker/Decode/Fragment/Tests.antt =====
-- A readout with the words of one module among those of another.
use faser_common.Common.{
  ℕ, zero, suc, ◌*◌, ◌≡◌, refl, List, [], ◌∷◌, ◌++◌, length, All, some, Option, get_elem?, arith,
}
use faser_common.Common.OrderedMap.{find}
use faser_common.Common.Words.{word_bytes}
use faser_common.Tracker.{TrbEvent}
use faser_common.Tracker.Readout.{readout, IsHit}
use faser_common.Tracker.SctEvent.{SctEvent}
use faser_common.Tracker.Decode.{returns, make_tracker_data_fragment}
use faser_common.Tracker.Decode.Hits.{IsBit}
use faser_common.Tracker.Decode.Layout.{Packet}
use faser_common.Tracker.Decode.Encoded.{IsSound}
use faser_common.Tracker.Decode.Module.{HoldsPackets}
use faser_common.Tracker.Decode.Fragment.{make_tracker_data_fragment-packets}

-- Channel, module and value of each word: module 3 with the l1id 5 and the bcid 66.
abbrev words : List (ℕ × ℕ × ℕ)
words =
    (0, 3, 0xE950A8)
    ∷ (0, 2, 0x123456)
    ∷ (1, 3, 0xE950A8)
    ∷ (0, 3, 0x119B67)
    ∷ (1, 3, 0x28A800)
    ∷ (0, 3, 0x27C000)
    ∷ (1, 3, 0)
    ∷ (0, 3, 0)
    ∷ []

-- Strips 17 and 18 of chip 0, strip 100 of chip 9, and strip 40 of chip 0.
abbrev led_packets : List Packet
led_packets =
    record { chip = 0; channel = 17; first = 1; others = 3 ∷ [] }
    ∷ record { chip = 9; channel = 100; first = 7; others = [] }
    ∷ []

abbrev ledx_packets : List Packet
ledx_packets = record { chip = 0; channel = 40; first = 2; others = [] } ∷ []

abbrev zeros : ℕ → List ℕ
zeros zero = []
zeros (suc n) = 0 ∷ zeros n

led_packets-IsSound : All IsSound led_packets
unfolding find
led_packets-IsSound = (
  (
    record {
      chip_fits = omega arith;
      channel_fits = omega arith;
      patterns_fit = ((omega arith, omega arith), ((omega arith, omega arith), tt));
    },
    (0, refl, omega arith),
  ),
  (
    (
      record {
        chip_fits = omega arith;
        channel_fits = omega arith;
        patterns_fit = ((omega arith, omega arith), tt);
      },
      (7, refl, omega arith),
    ),
    tt,
  ),
)

ledx_packets-IsSound : All IsSound ledx_packets
unfolding find
ledx_packets-IsSound = (
  (
    record {
      chip_fits = omega arith;
      channel_fits = omega arith;
      patterns_fit = ((omega arith, omega arith), tt);
    },
    (0, refl, omega arith),
  ),
  tt,
)

words-IsHit : All IsHit words
words-IsHit = (
  (omega arith, omega arith, omega arith),
  (
    (omega arith, omega arith, omega arith),
    (
      (omega arith, omega arith, omega arith),
      (
        (omega arith, omega arith, omega arith),
        (
          (omega arith, omega arith, omega arith),
          (
            (omega arith, omega arith, omega arith),
            (
              (omega arith, omega arith, omega arith),
              ((omega arith, omega arith, omega arith), tt),
            ),
          ),
        ),
      ),
    ),
  ),
)

zeros-IsBit : (n : ℕ) → All IsBit (zeros n)
zeros-IsBit zero = tt
zeros-IsBit (suc n) = (omega arith, zeros-IsBit n)

make_tracker_data_fragment-packets_example :
    (ev : TrbEvent) × (slots : List (Option SctEvent)) × (sct : SctEvent)
    × (make_tracker_data_fragment 7
          (word_bytes (readout 6 1000 77 words 0x123) ++ (1 ∷ []))
          (4 * length (readout 6 1000 77 words 0x123))
        ≡ returns (ev, slots))
    × (ev.m_event_id ≡ 1000)
    × (ev.m_bc_id ≡ 77)
    × (get_elem? slots 3 ≡ some (some sct))
    × HoldsPackets 3 5 66 led_packets ledx_packets sct
make_tracker_data_fragment-packets_example =
    make_tracker_data_fragment-packets 7 6 1000 77 words 0x123 (1 ∷ []) 3 5 66 led_packets
      ledx_packets (zeros 23) (zeros 20) (omega arith) (omega arith) (omega arith) words-IsHit
      (omega arith) (omega arith) (omega arith) (omega arith) refl refl led_packets-IsSound
      ledx_packets-IsSound (zeros-IsBit 23) (zeros-IsBit 20)
