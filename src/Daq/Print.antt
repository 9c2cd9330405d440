-- ===== src/Daq/Print.antt =====
-- EventFormats/EventFormats/DAQFormats.hpp: the two `operator<<`.
pub mod Lines
mod Tests
use faser_common.Common.{ℕ, List, [], ◌∷◌}
use faser_common.Stream.{Ostream, Item, number, setw, setfill, hex, dec, str, puts}
use faser_common.Daq.Fragment.{EventFragment}
use faser_common.Daq.Event.{EventFull, status}
use faser_common.Daq.Fragment.Getters as Fragment
use faser_common.Daq.Event.Getters as Event

abbrev pub fragment_items : EventFragment → List Item
fragment_items frag =
    str " Fragment: tag="
    ∷ number (Fragment.fragment_tag frag)
    ∷ str " source=0x"
    ∷ hex
    ∷ setfill b'0'
    ∷ setw 4
    ∷ hex
    ∷ number (Fragment.source_id frag)
    ∷ str " bc="
    ∷ dec
    ∷ setfill b' '
    ∷ setw 4
    ∷ number (Fragment.bc_id frag)
    ∷ str " status=0x"
    ∷ hex
    ∷ setw 4
    ∷ setfill b'0'
    ∷ number (Fragment.status frag)
    ∷ str " payload="
    ∷ dec
    ∷ setfill b' '
    ∷ setw 5
    ∷ number (Fragment.payload_size frag)
    ∷ str " bytes"
    ∷ []

unfoldable pub print_fragment : Ostream → EventFragment → Ostream
print_fragment out frag = puts out (fragment_items frag)

abbrev pub event_items : EventFull → List Item
event_items ev =
    str "Event: "
    ∷ setw 8
    ∷ number (Event.event_counter ev)
    ∷ str " (0x"
    ∷ hex
    ∷ setfill b'0'
    ∷ setw 8
    ∷ number (Event.event_id ev)
    ∷ str ") "
    ∷ setfill b' '
    ∷ str " run="
    ∷ dec
    ∷ number (Event.run_number ev)
    ∷ str " tag="
    ∷ dec
    ∷ number (Event.event_tag ev)
    ∷ str " bc="
    ∷ dec
    ∷ setw 4
    ∷ number (Event.bc_id ev)
    ∷ str " trig=0x"
    ∷ hex
    ∷ setfill b'0'
    ∷ setw 4
    ∷ number (Event.trigger_bits ev)
    ∷ str " status=0x"
    ∷ hex
    ∷ setw 4
    ∷ number (status ev)
    ∷ setfill b' '
    ∷ str " time="
    ∷ dec
    ∷ number (Event.timestamp ev)
    ∷ str " #fragments="
    ∷ number (Event.fragment_count ev)
    ∷ str " payload="
    ∷ dec
    ∷ setw 6
    ∷ number (Event.payload_size ev)
    ∷ str " bytes"
    ∷ []

unfoldable pub print_event : Ostream → EventFull → Ostream
print_event out ev = puts out (event_items ev)
