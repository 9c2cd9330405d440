-- ===== src/Dump/Tests.antt =====
-- A fragment of the beam orbit board that is too short, and one of the tracker.
use faser_common.Common.{◌≡◌, ◌≢◌, ◌↔◌, refl, [], ◌∷◌, true, false}
use faser_common.Common.{ok}
use faser_common.Daq.Fragment.{EventFragment, fresh_header}
use faser_common.Bobr.{wrong_size}
use faser_common.Bobr as Bobr
use faser_common.Common.{ℕ, List, Option, some}
use faser_common.Daq.Event.{read_event}
use faser_common.Dump.{
  escaped, failed, read_option, DumpOptions, no_options, stuck, bobr_thrown, decoder_of,
  dump_fragment, dump_events, read_systems,
}
use faser_common.Dump.Caught.{Refused, dump_fragment-throws_iff}
use faser_common.Dump.Program.{main, main-ne-stuck}

abbrev short_bobr : EventFragment
short_bobr = record { header = fresh_header 1001 0 0x050001 77 1666 2; fragment = 8 ∷ 9 ∷ [] }

abbrev all_shown : DumpOptions
all_shown = record no_options {
  show_fragments = true;
  show_data = true;
  show_tlb = true;
  show_trb = true;
  show_digitizer = true;
  show_bobr = true;
}

options_read : read_systems (b'a' ∷ b'l' ∷ b'l' ∷ []) no_options ≡ ok all_shown
unfolding read_systems
options_read = refl

dump_fragment-throws_iff_example :
    (dump_fragment 0 false all_shown 0 short_bobr ≡ escaped (bobr_thrown wrong_size)) ↔ (
      (all_shown.show_data ≡ true)
      × Refused
          (decoder_of all_shown 0 short_bobr.header.source_id)
          short_bobr.fragment
          (bobr_thrown wrong_size))
dump_fragment-throws_iff_example =
    dump_fragment-throws_iff 0 false all_shown 0 short_bobr (bobr_thrown wrong_size) refl

program_aborted : dump_fragment 0 false all_shown 0 short_bobr ≡ escaped (bobr_thrown wrong_size)
unfolding dump_fragment Bobr.make_fragment
program_aborted = refl

-- The options -d all, and a file with two bytes.
abbrev getopt_d : List (List ℕ) → List (ℕ × List ℕ) × List (List ℕ)
getopt_d (name ∷ d ∷ systems ∷ operands) = ((b'd', systems) ∷ [], operands)
getopt_d argv = ([], argv)

abbrev short_file : List ℕ → Option (List ℕ)
short_file name = some (0xBB ∷ 1 ∷ [])

abbrev arguments : List (List ℕ)
arguments = (b'e' ∷ []) ∷ (b'-' ∷ b'd' ∷ []) ∷ (b'a' ∷ b'l' ∷ b'l' ∷ []) ∷ (1 ∷ []) ∷ []

main-ne-stuck_example : main getopt_d short_file 0 false arguments ≢ ok stuck
main-ne-stuck_example = main-ne-stuck getopt_d short_file 0 false arguments

returns_one : main getopt_d short_file 0 false arguments ≡ ok failed
unfolding main read_option read_systems dump_events read_event
returns_one = refl
