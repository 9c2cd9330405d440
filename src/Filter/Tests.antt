-- ===== src/Filter/Tests.antt =====
-- A file of three events, and the theorems at it.
use faser_common.Stream.{plain_stream}
use faser_common.Daq.Print.{print_event}
use faser_common.Filter.Args.{ℤ}
use faser_common.Filter.Program.{no_settings, options_of}
use faser_common.Filter.Printed.{shown_number, skips-print_event}
use faser_common.Common.{ℕ, ◌≡◌, ◌≢◌, refl, arith, List, [], ◌∷◌, ◌++◌, All}
use faser_common.Daq.Fragment
use faser_common.Daq.Fragment.{EventFragment, fresh_header}
use faser_common.Daq.Event.{EventFull, read_event}
use faser_common.Filter.{Options, finished, failed, stuck, filter_events, skips}
use faser_common.Filter.Copy.{file_of, selected, limited, IsReadable, filter_events-file_of}
use faser_common.Common.{false, ◌↔◌}
use faser_common.Common.{Option, some, none, ok}
use faser_common.Filter.Args.{
  pos, digits_value, read_event_list, read_tokens, token_numbers, stoi, range,
}
use faser_common.Filter.Args.Lists.{span}
use faser_common.Filter.Program.{main, ran}
use faser_common.Filter.Program.Named.{IsAsked, Keeps}
use faser_common.Filter.Program.Whole.{main-file_of}
use faser_common.Filter.Ends.{filter_events-ne-stuck}

abbrev tracker : EventFragment
tracker = record { header = fresh_header 1001 0 0x030006 77 1666 2; fragment = 8 ∷ 9 ∷ [] }

abbrev numbered : ℕ → ℕ → EventFull
numbered number trigger_bits = record {
  header = record {
    marker = 0xBB;
    event_tag = 0;
    trigger_bits = trigger_bits;
    version_number = 1;
    header_size = 44;
    payload_size = 38;
    fragment_count = 1;
    run_number = 603;
    event_id = 77;
    event_counter = number;
    bc_id = 1666;
    status = 0;
    timestamp = 5000;
  };
  fragments = (0x030006, tracker) ∷ [];
}

abbrev events : List EventFull
events = numbered 5 1 ∷ numbered 6 2 ∷ numbered 7 3 ∷ []

abbrev chosen : Options
chosen = record { n_events_max = 1; event_list = 6 ∷ 7 ∷ []; mask = 2 }

selected-chosen : limited chosen (selected chosen events) ≡ numbered 6 2 ∷ []
unfolding limited selected skips
selected-chosen = refl

events-IsReadable : All IsReadable events
unfolding Fragment.raw Fragment.header_bytes
events-IsReadable = omega arith

filter_events-file_of_example :
    filter_events chosen (file_of events) (1 ∷ [])
    ≡ finished ((1 ∷ []) ++ file_of (limited chosen (selected chosen events)))
filter_events-file_of_example = filter_events-file_of chosen events (1 ∷ []) events-IsReadable

filter_events-ne-stuck_example : filter_events chosen (0xBB ∷ 1 ∷ []) [] ≢ stuck
filter_events-ne-stuck_example = filter_events-ne-stuck chosen (0xBB ∷ 1 ∷ []) []

cut_file : filter_events chosen (0xBB ∷ 1 ∷ []) (4 ∷ []) ≡ failed (4 ∷ [])
unfolding filter_events read_event
cut_file = refl

-- `getopt` on a program name, the option -e with its argument, and the operands.
abbrev getopt_e : List (List ℕ) → List (ℕ × List ℕ) × List (List ℕ)
getopt_e (name ∷ e ∷ numbers ∷ operands) = ((b'e', numbers) ∷ [], operands)
getopt_e argv = ([], argv)

abbrev input_file : List ℕ → Option (List ℕ)
input_file (c ∷ cs) = some (file_of events)
input_file [] = none

abbrev output_file : List ℕ → Option (List ℕ)
output_file cs = some (9 ∷ [])

-- The events 6 to 7.
abbrev arguments : List (List ℕ)
arguments = (b'f' ∷ []) ∷ (b'-' ∷ b'e' ∷ []) ∷ (b'6' ∷ b'-' ∷ b'7' ∷ []) ∷ (1 ∷ []) ∷ (2 ∷ []) ∷ []

main-file_of_example :
    (out : List EventFull) × Keeps (IsAsked (span (b'6' ∷ []) (b'7' ∷ []) ∷ [])) events out
    × (main getopt_e input_file output_file arguments ≡ ok (ran (finished ([] ++ file_of out))))
unfolding digits_value
main-file_of_example =
    main-file_of getopt_e input_file output_file arguments (span (b'6' ∷ []) (b'7' ∷ []) ∷ []) false
      (1 ∷ []) (2 ∷ []) [] events (9 ∷ []) (omega arith) refl refl refl (omega arith)
      events-IsReadable

-- The range 7 to 6 leaves no number, and without a number no event is passed over.
backwards :
    (read_event_list (b'7' ∷ b'-' ∷ b'6' ∷ []) [] ≡ ok [])
    × (selected (options_of no_settings) events ≡ events)
unfolding read_event_list read_tokens token_numbers stoi range selected skips
backwards = (refl, refl)

numbers_read :
    read_event_list (b'1' ∷ b',' ∷ b'3' ∷ b',' ∷ b'5' ∷ b'-' ∷ b'7' ∷ []) []
    ≡ ok (pos 1 ∷ pos 3 ∷ pos 5 ∷ pos 6 ∷ pos 7 ∷ [])
unfolding read_event_list read_tokens token_numbers stoi range
numbers_read = refl

skips-print_event_example :
    (ns : List ℤ) × (read_event_list
        (shown_number (print_event (plain_stream []) (numbered 42 1)).text)
        []
      ≡ ok ns)
    × ((skips (options_of (record no_settings { event_list = ns })) (numbered 42 7) ≡ false)
        ↔ ((numbered 42 7).header.event_counter ≡ (numbered 42 1).header.event_counter))
skips-print_event_example = skips-print_event (numbered 42 1) (numbered 42 7) (omega arith)
