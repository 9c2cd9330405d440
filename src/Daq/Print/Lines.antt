-- ===== src/Daq/Print/Lines.antt =====
-- The lines that the two `operator<<` of DAQFormats.hpp write.
use faser_common.Common.{ℕ, ◌≡◌, List, ◌++◌}
use faser_common.Stream.{decimal, hexadecimal, number_text, padded, codes, plain_stream}
use faser_common.Stream.Laws.{outputs, format_behind, puts-outputs}
use faser_common.Daq.Fragment.{EventFragment}
use faser_common.Daq.Event.{EventFull, status}
use faser_common.Daq.Print.{print_fragment, print_event, fragment_items, event_items}

abbrev dec_text : ℕ → List ℕ
dec_text n = number_text decimal n

abbrev hex_text : ℕ → List ℕ
hex_text n = number_text hexadecimal n

-- The line of a fragment.
abbrev pub fragment_line : EventFragment → List ℕ
fragment_line frag =
    let h = frag.header in
    codes " Fragment: tag="
    ++ (dec_text h.fragment_tag
        ++ (codes " source=0x"
            ++ (padded 4 b'0' (hex_text h.source_id)
                ++ (codes " bc="
                    ++ (padded 4 b' ' (dec_text h.bc_id)
                        ++ (codes " status=0x"
                            ++ (padded 4 b'0' (hex_text h.status)
                                ++ (codes " payload="
                                    ++ (padded 5 b' ' (dec_text h.payload_size)
                                        ++ codes " bytes")))))))))

-- The line of an event.
abbrev pub event_line : EventFull → List ℕ
event_line ev =
    let h = ev.header in
    codes "Event: "
    ++ (padded 8 b' ' (dec_text h.event_counter)
        ++ (codes " (0x"
            ++ (padded 8 b'0' (hex_text h.event_id)
                ++ (codes ")  run="
                    ++ (dec_text h.run_number
                        ++ (codes " tag="
                            ++ (dec_text h.event_tag
                                ++ (codes " bc="
                                    ++ (padded 4 b' ' (dec_text h.bc_id)
                                        ++ (codes " trig=0x"
                                            ++ (padded 4 b'0' (hex_text h.trigger_bits)
                                                ++ (codes " status=0x"
                                                    ++ (padded 4 b'0' (hex_text (status ev))
                                                        ++ (codes " time="
                                                            ++ (dec_text h.timestamp
                                                            ++ (codes " #fragments="
                                                            ++ (dec_text h.fragment_count
                                                            ++ (codes " payload="
                                                            ++ (padded 6 b' '
                                                            (dec_text h.payload_size)
                                                            ++ codes " bytes")))))))))))))))))))

pub print_fragment-line :
    (t : List ℕ) (frag : EventFragment)
    → print_fragment (plain_stream t) frag ≡ plain_stream (t ++ fragment_line frag)
unfolding print_fragment outputs format_behind padded
print_fragment-line t frag = puts-outputs (fragment_items frag) (plain_stream t)

pub print_event-line :
    (t : List ℕ) (ev : EventFull)
    → print_event (plain_stream t) ev ≡ plain_stream (t ++ event_line ev)
unfolding print_event outputs format_behind padded
print_event-line t ev = puts-outputs (event_items ev) (plain_stream t)
