-- ===== src/Dump.antt =====
-- EventFormats/apps/eventDump.cxx: the options and the loop of `main`, and which decoder each fragment
-- is given to. What is printed of a decoded fragment is left out; files are lists of bytes.
pub mod Caught
pub mod Ends
pub mod Program
mod Tests
use faser_common.Common.{ℕ, zero, suc, ◌+◌, List, [], ◌∷◌, ◌++◌, Bool, true, false, not, ◌&&◌}
use faser_common.Common.{
  ◌==◌, ltb, leb, if◌then◌else◌, length, bit_and, Option, none, some, Result, ok, throw, fault,
  ◌>>=◌,
}
use faser_common.Daq.Defs.{
  EFormatException, EventTags, tag_value, physics_tag, tlb_monitoring_tag, source_value,
  trigger_source_id, tracker_source_id, pmt_source_id, bobr_source_id,
}
use faser_common.Daq.Fragment.{EventFragment}
use faser_common.Daq.Event.{EventFull, read_event, get_fragment_ids, find_fragment}
use faser_common.TlbData as Tlb
use faser_common.TlbMonitoring as Monitoring
use faser_common.Digitizer.{DigitizerDataException, decode_digitizer}
use faser_common.Bobr.{BobrDataException}
use faser_common.Bobr as Bobr
use faser_common.Tracker.Decode.{
  Decoded, returns, throws, overrun, null_pointer, no_fuel, make_tracker_data_fragment,
}
use faser_common.Filter.Args.{ℤ, pos, negsuc, ArgException, usage, atoi}

-- The variables that the options set, but for the debug mode of the decoders, which only prints.
pub record DumpOptions : Type 0 where
  pub show_fragments : Bool
  pub show_data : Bool
  pub show_tlb : Bool
  pub show_trb : Bool
  pub show_digitizer : Bool
  pub show_bobr : Bool
  pub n_events_max : ℤ

abbrev pub no_options : DumpOptions
no_options = record {
  show_fragments = false;
  show_data = false;
  show_tlb = false;
  show_trb = false;
  show_digitizer = false;
  show_bobr = false;
  n_events_max = negsuc 0;
}

-- `systems.find(name)==0`
unfoldable pub starts_with : List ℕ → List ℕ → Bool
starts_with [] systems = true
starts_with (c ∷ cs) [] = false
starts_with (c ∷ cs) (d ∷ ds) = c == d && starts_with cs ds

-- The option -d.
unfoldable pub read_systems : List ℕ → DumpOptions → Result ArgException DumpOptions
unfolding starts_with
read_systems systems o =
    let shown = record o { show_fragments = true; show_data = true } in
    if starts_with (b'T' ∷ b'L' ∷ b'B' ∷ []) systems
    then ok (record shown { show_tlb = true })
    else if starts_with (b'T' ∷ b'R' ∷ b'B' ∷ []) systems
    then ok (record shown { show_trb = true })
    else if starts_with (b'B' ∷ b'O' ∷ b'B' ∷ b'R' ∷ []) systems
    then ok (record shown { show_bobr = true })
    else if starts_with (b'D' ∷ b'i' ∷ b'g' ∷ b'i' ∷ b't' ∷ b'i' ∷ b'z' ∷ b'e' ∷ b'r' ∷ []) systems
    then ok (record shown { show_digitizer = true })
    else if starts_with (b'a' ∷ b'l' ∷ b'l' ∷ []) systems
    then ok
        (record shown { show_tlb = true; show_trb = true; show_digitizer = true; show_bobr = true })
    else throw usage

-- The switch on what `getopt_long` returned; ':' and the 0 of --debug set nothing here.
unfoldable pub read_option : ℕ → List ℕ → DumpOptions → Result ArgException DumpOptions
read_option opt optarg o =
    if opt == b'f'
    then ok (record o { show_fragments = true })
    else if opt == b'd'
    then read_systems optarg o
    else if opt == b'n'
    then (atoi optarg >>= λ n. ok (record o { n_events_max = n }))
    else if opt == b'?'
    then throw usage
    else ok o

-- The exceptions of the decoders that nothing catches.
pub data DumpException : Type 0 where
  tlb_thrown : Tlb.TlbDataException → DumpException
  tlb_monitoring_thrown : Monitoring.TlbMonException → DumpException
  digitizer_thrown : DigitizerDataException → DumpException
  bobr_thrown : BobrDataException → DumpException

-- What becomes of a fragment, or of an event: it is shown, an exception goes on to `main`, the code
-- does what is undefined, or a decoder was out of fuel, which is no end of the program.
pub data Shown : Type 0 where
  shown : Shown
  escaped : DumpException → Shown
  undefined_access endless : Shown

-- What comes next, where something was shown.
abbrev pub and_then : Shown → Shown → Shown
and_then shown next = next
and_then (escaped e) next = escaped e
and_then undefined_access next = undefined_access
and_then endless next = endless

-- A decoder's object is printed; its exception goes on to `main`.
abbrev pub printed {ℓ κ} : {E : Type ℓ} {A : Type κ} → (E → DumpException) → Result E A → Shown
printed thrown (ok a) = shown
printed thrown (throw e) = escaped (thrown e)
printed thrown fault = undefined_access

-- The tracker's exceptions are caught where it is decoded.
abbrev pub printed_tracker {ℓ} : {A : Type ℓ} → Decoded A → Shown
printed_tracker (returns a) = shown
printed_tracker (throws e) = shown
printed_tracker overrun = undefined_access
printed_tracker null_pointer = undefined_access
printed_tracker no_fuel = endless

-- The decoder that the switch on the source id chooses.
pub data Decoder : Type 0 where
  tlb_data tlb_monitoring tracker digitizer bobr hex_words nothing : Decoder

unfoldable pub decoder_of : DumpOptions → ℕ → ℕ → Decoder
decoder_of o tag source_id =
    let source = bit_and source_id 0xFFFF0000 in
    if source == source_value trigger_source_id
    then (if not o.show_tlb
        then nothing
        else if tag == tag_value physics_tag
        then tlb_data
        else if tag == tag_value tlb_monitoring_tag
        then tlb_monitoring
        else nothing)
    else if source == source_value tracker_source_id
    then (if o.show_trb then tracker else nothing)
    else if source == source_value pmt_source_id
    then (if o.show_digitizer && tag == tag_value physics_tag then digitizer else nothing)
    else if source == source_value bobr_source_id
    then (if o.show_bobr then bobr else nothing)
    else hex_words

-- A payload under a decoder; the TLB's objects have members that are not set, and kept answers.
unfoldable pub decode_payload : ℕ → Bool → Decoder → List ℕ → ℕ → Shown
decode_payload junk stale tlb_data buf size =
    printed tlb_thrown (Tlb.make_fragment junk stale buf size)
decode_payload junk stale tlb_monitoring buf size =
    printed tlb_monitoring_thrown (Monitoring.make_fragment junk stale buf size)
decode_payload junk stale tracker buf size =
    printed_tracker (make_tracker_data_fragment junk buf size)
decode_payload junk stale digitizer buf size = printed digitizer_thrown (decode_digitizer buf size)
decode_payload junk stale bobr buf size = printed bobr_thrown (Bobr.make_fragment buf size)
decode_payload junk stale hex_words buf size = shown
decode_payload junk stale nothing buf size = shown

unfoldable pub dump_fragment : ℕ → Bool → DumpOptions → ℕ → EventFragment → Shown
unfolding decode_payload decoder_of
dump_fragment junk stale o tag f =
    if o.show_data
    then decode_payload junk stale (decoder_of o tag f.header.source_id) f.fragment
        f.header.payload_size
    else shown

-- The loop over the fragments' ids.
unfoldable pub dump_fragments : ℕ → Bool → DumpOptions → EventFull → List ℕ → Shown
dump_fragments junk stale o ev [] = shown
dump_fragments junk stale o ev (id ∷ ids) = elim (find_fragment ev id) [
  | none ↦ undefined_access
  | some f ↦
      let rest = dump_fragments junk stale o ev ids in
      and_then (dump_fragment junk stale o ev.header.event_tag f) rest
]

unfoldable pub dump_event : ℕ → Bool → DumpOptions → EventFull → Shown
unfolding dump_fragments
dump_event junk stale o ev =
    if o.show_fragments then dump_fragments junk stale o ev (get_fragment_ids ev) else shown

-- The end of `main`: it returns 0 or 1, is aborted by an exception, or does what is undefined;
-- `stuck` is no end of the program, but of the fuel of this loop or of a decoder's.
pub data DumpEnd : Type 0 where
  finished failed : DumpEnd
  aborted : DumpException → DumpEnd
  undefined stuck : DumpEnd

-- `nEventsMax!=-1 && nEventsRead>=nEventsMax`
abbrev pub is_last : ℤ → ℕ → Bool
is_last (pos m) n = leb m n
is_last (negsuc zero) n = false
is_last (negsuc (suc m)) n = true

unfoldable pub dump_loop : ℕ → ℕ → Bool → DumpOptions → List ℕ → ℕ → DumpEnd
dump_loop fuel junk stale o [] n = finished
dump_loop zero junk stale o (b ∷ bs) n = stuck
dump_loop (suc fuel) junk stale o (b ∷ bs) n = elim (read_event (b ∷ bs)) [
  | throw e ↦ failed
  | fault ↦ undefined
  | ok (ev, rest) ↦ elim (dump_event junk stale o ev) [
    | escaped e ↦ aborted e
    | undefined_access ↦ undefined
    | endless ↦ stuck
    | shown ↦ elim (is_last o.n_events_max (n + 1)) [
      | true ↦ finished
      | false ↦ dump_loop fuel junk stale o rest (n + 1)
    ]
  ]
]

-- A round for each byte of the file is enough.
unfoldable pub dump_events : ℕ → Bool → DumpOptions → List ℕ → DumpEnd
unfolding dump_loop
dump_events junk stale o input = dump_loop (length input) junk stale o input 0
