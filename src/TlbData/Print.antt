-- ===== src/TlbData/Print.antt =====
-- EventFormats/EventFormats/TLBDataFragment.hpp: its `operator<<`. `file` is what `__FILE__` stands
-- for in that file.
pub mod Report
mod Tests
use faser_common.Common.{ℕ, List, [], ◌∷◌, ◌++◌, Bool, true, false, ltb, ◌==◌, if◌then◌else◌}
use faser_common.Common.{ok, throw, fault, Result}
use faser_common.Stream.{
  Ostream, Item, codes, number, chars, str, setw, setfill, hex, dec, endl, puts, bitset_text, Step,
  item, call, run,
}
use faser_common.Exceptions.{throw_at, what}
use faser_common.TlbData.{
  TlbDataFragment, TlbDataException, event_id, orbit_id, bc_id, tap, tbp, input_bits,
  input_bits_next_clk, orbits_lost_counter, has_checksum_error, has_frameid_error,
}

abbrev pub bool_number : Bool → ℕ
bool_number true = 1
bool_number false = 0

abbrev bits_item : ℕ → ℕ → Item
bits_item n x = chars (bitset_text n x)

-- The statement of the `try` block, with the lines at which the getters throw.
abbrev pub report_steps : TlbDataFragment → List (Step TlbDataFragment TlbDataException)
report_steps event =
    item (setw 22)
    ∷ item (str " event_id: ")
    ∷ item (setfill b' ')
    ∷ item (setw 32)
    ∷ item (number (event_id event))
    ∷ item (setfill b' ')
    ∷ item endl
    ∷ item (setw 22)
    ∷ item (str " orbit_id: ")
    ∷ item (setfill b' ')
    ∷ item (setw 32)
    ∷ call 92 orbit_id number
    ∷ item (setfill b' ')
    ∷ item endl
    ∷ item (setw 22)
    ∷ item (str " bc_id: ")
    ∷ item (setfill b' ')
    ∷ item (setw 32)
    ∷ item (number (bc_id event))
    ∷ item (setfill b' ')
    ∷ item endl
    ∷ item (setw 22)
    ∷ item (str " TAP: ")
    ∷ item (setfill b' ')
    ∷ item (setw 32)
    ∷ call 101 tap (bits_item 6)
    ∷ item (setfill b' ')
    ∷ item endl
    ∷ item (setw 22)
    ∷ item (str " TBP: ")
    ∷ item (setfill b' ')
    ∷ item (setw 32)
    ∷ call 107 tbp (bits_item 6)
    ∷ item (setfill b' ')
    ∷ item endl
    ∷ item (setw 22)
    ∷ item (str " input_bits: ")
    ∷ item (setfill b' ')
    ∷ item (setw 32)
    ∷ call 111 input_bits (bits_item 8)
    ∷ item (setfill b' ')
    ∷ item endl
    ∷ item (setw 22)
    ∷ item (str " input_bits_next_clk: ")
    ∷ item (setfill b' ')
    ∷ item (setw 32)
    ∷ call 115 input_bits_next_clk (bits_item 8)
    ∷ item (setfill b' ')
    ∷ item endl
    ∷ item (setw 22)
    ∷ item (str " ext. orbits lost: ")
    ∷ item (setfill b' ')
    ∷ item (setw 32)
    ∷ item (number (orbits_lost_counter event))
    ∷ item (setfill b' ')
    ∷ item endl
    ∷ []

-- The `catch` block; `checked` is `version()>0x1`.
abbrev error_items : Bool → TlbDataFragment → List Item
error_items false event = []
error_items true event =
    str "checksum errors present "
    ∷ number (bool_number (has_checksum_error event))
    ∷ endl
    ∷ str "frameid errors present "
    ∷ number (bool_number (has_frameid_error event))
    ∷ endl
    ∷ []

abbrev pub corrupted_items : Bool → List ℕ → ℕ → TlbDataFragment → List Item
corrupted_items checked file line event =
    chars (what (throw_at file line (codes "Data not valid"))).0
    ∷ endl
    ∷ str "Corrupted data for TLB data event "
    ∷ number (event_id event)
    ∷ str ", bcid "
    ∷ number (bc_id event)
    ∷ endl
    ∷ str "Fragment size is "
    ∷ number event.m_size
    ∷ str " bytes total"
    ∷ endl
    ∷ error_items checked event

-- Behind both; `unknown` is `version() == 0xff`.
abbrev warning_items : Bool → List Item
warning_items false = []
warning_items true =
    str
      "WARNING This is an invalid format version number! Either this data is corrupted or this is not TLB physics data."
    ∷ endl
    ∷ []

abbrev pub version_items : Bool → TlbDataFragment → List Item
version_items unknown event =
    str "\ndata format version: 0x"
    ∷ hex
    ∷ number event.m_version
    ∷ dec
    ∷ endl
    ∷ warning_items unknown

-- The exception that leaves the operator, if one does; the stream, and the fragment with the answer
-- of `valid` that it keeps.
unfoldable pub print_fragment :
    List ℕ
    → Ostream
    → TlbDataFragment
    → Result TlbDataException (Unit {0}) × Ostream × TlbDataFragment
print_fragment file out event =
    let (ended, out', event') = run (report_steps event) out event in
    let behind = version_items (event.m_version == 0xff) event' in
    elim ended [
      | ok u ↦ (ok tt, puts out' behind, event')
      | throw (e, line) ↦ (
        ok tt,
        puts (puts out' (corrupted_items (ltb 0x1 event.m_version) file line event')) behind,
        event',
      )
      | fault ↦ (fault, out', event')
    ]
