-- ===== src/TlbMonitoring/Print.antt =====
-- EventFormats/EventFormats/TLBMonitoringFragment.hpp: its `operator<<`. `file` is what `__FILE__`
-- stands for in that file.
pub mod Answers
pub mod Report
mod Tests
use faser_common.Common.{
  ℕ, zero, suc, ◌+◌, List, [], ◌∷◌, ◌++◌, Bool, true, false, not, ltb, ◌==◌, Result, ok, throw,
  fault,
}
use faser_common.Stream.{
  Ostream, Item, codes, number, chars, str, setw, setfill, hex, dec, endl, puts, Step, item, call,
  run,
}
use faser_common.Exceptions.{throw_at, what}
use faser_common.TlbMonitoring.{
  TlbMonitoringFragment, TlbMonException, index_out_of_range, data_not_valid, mondata_v2_old_size,
}
use faser_common.TlbMonitoring.Access.{
  event_id, orbit_id, bc_id, orbits_lost_counter, Line, tbp, tap, tav, trig_line, Counter, counter,
  deadtime_veto_counter, busy_veto_counter, rate_limiter_veto_counter, bcr_veto_counter,
  digitizer_busy_counter, tap_ored, tav_ored, has_checksum_error, has_frameid_error,
}
use faser_common.TlbData.Print.{bool_number}

abbrev pub Steps : Type 0
Steps = List (Step TlbMonitoringFragment TlbMonException)

-- A trigger line's counter in its field. An index within the lines throws at no other line.
abbrev field_steps : List ℕ → ℕ → Line → ℕ → Steps → Steps
field_steps label line l i rest =
    item (chars label)
    ∷ item (number i)
    ∷ item (str ": ")
    ∷ item (setw 24)
    ∷ call line (λ f. trig_line l f i) number
    ∷ item (setfill b' ')
    ∷ rest

-- The loop, `left` of the trigger lines from `i` on.
unfoldable pub line_steps : ℕ → ℕ → Steps → Steps
line_steps zero i rest = rest
line_steps (suc left) i rest = field_steps (codes "\ttbp") 126 tbp i (
    field_steps (codes "\ttap") 131 tap i
      (field_steps (codes "\ttav") 136 tav i (item endl ∷ line_steps left (i + 1) rest)))

-- The counters of version 2: `later` is `event.version()>0x1`, `ored` is that the size is not the old
-- one.
abbrev ored_steps : Bool → Steps → Steps
ored_steps false rest = rest
ored_steps true rest =
    item (str " TAP ORed: ")
    ∷ call 160 (counter tap_ored) number
    ∷ item (str ", TAV ORed: ")
    ∷ call 164 (counter tav_ored) number
    ∷ rest

abbrev pub later_steps : Bool → Bool → Steps → Steps
later_steps false ored rest = rest
later_steps true ored rest =
    item (str ", digi busy veto count: ")
    ∷ call 156 (counter digitizer_busy_counter) number
    ∷ item endl
    ∷ ored_steps ored rest

abbrev pub behind_steps : TlbMonitoringFragment → Steps
behind_steps event =
    item endl
    ∷ item (str " ext. orbits lost: ")
    ∷ item (number (orbits_lost_counter event))
    ∷ item endl
    ∷ []

-- Behind the loop.
abbrev pub counter_steps : Bool → Bool → TlbMonitoringFragment → Steps
counter_steps later ored event =
    item (str " deadtime veto count: ")
    ∷ call 140 (counter deadtime_veto_counter) number
    ∷ item (str ", busy veto count: ")
    ∷ call 144 (counter busy_veto_counter) number
    ∷ item (str ", rate_limiter veto count: ")
    ∷ call 148 (counter rate_limiter_veto_counter) number
    ∷ item (str ", bcr veto count: ")
    ∷ call 152 (counter bcr_veto_counter) number
    ∷ later_steps later ored (behind_steps event)

-- The `try` block, with the lines at which the getters throw.
unfoldable pub report_steps : Bool → Bool → TlbMonitoringFragment → Steps
unfolding line_steps
report_steps later ored event =
    item (str " event_id: ")
    ∷ item (number (event_id event))
    ∷ item (str ", orbit_id: ")
    ∷ call 119 orbit_id number
    ∷ item (str ", bc_id:    ")
    ∷ item (number (bc_id event))
    ∷ item endl
    ∷ line_steps 6 0 (counter_steps later ored event)

-- What `THROW` is given.
abbrev pub message : TlbMonException → List ℕ
message index_out_of_range = codes "index out of range"
message data_not_valid = codes "Data not valid"

-- The `catch` block.
abbrev error_items : Bool → TlbMonitoringFragment → List Item
error_items false event = []
error_items true event =
    str "checksum errors present "
    ∷ number (bool_number (has_checksum_error event))
    ∷ str ", frameid errors present "
    ∷ number (bool_number (has_frameid_error event))
    ∷ endl
    ∷ []

abbrev pub corrupted_items : Bool → List ℕ → ℕ → TlbMonException → TlbMonitoringFragment → List Item
corrupted_items later file line e event =
    chars (what (throw_at file line (message e))).0
    ∷ endl
    ∷ str "Corrupted data for TLB mon event "
    ∷ number (event_id event)
    ∷ str ", bcid "
    ∷ number (bc_id event)
    ∷ str ". Fragment size is "
    ∷ number event.m_size
    ∷ str " bytes total"
    ∷ endl
    ∷ error_items later event

-- Behind both; `unknown` is `version() == 0xff`.
abbrev warning_items : Bool → List Item
warning_items false = []
warning_items true =
    str
      "WARNING This is an invalid format version number! Either this data is corrupted or this is not TLB monitoring data."
    ∷ endl
    ∷ []

abbrev pub version_items : Bool → TlbMonitoringFragment → List Item
version_items unknown event =
    str "\ndata format version: 0x"
    ∷ hex
    ∷ number event.m_version
    ∷ dec
    ∷ endl
    ∷ warning_items unknown

-- The exception that leaves the operator, if one does; the stream, and the fragment with the answer
-- of `valid` that it keeps.
unfoldable pub print_fragment :
    List ℕ
    → Ostream
    → TlbMonitoringFragment
    → Result TlbMonException (Unit {0}) × Ostream × TlbMonitoringFragment
print_fragment file out event =
    let later = ltb 0x1 event.m_version in
    let ored = not (event.m_size == mondata_v2_old_size) in
    let (ended, out', event') = run (report_steps later ored event) out event in
    let behind = version_items (event.m_version == 0xff) event' in
    elim ended [
      | ok u ↦ (ok tt, puts out' behind, event')
      | throw (e, line) ↦
          (ok tt, puts (puts out' (corrupted_items later file line e event')) behind, event')
      | fault ↦ (fault, out', event')
    ]
