-- ===== src/TlbMonitoring/Access.antt =====
-- The validity test, whose answer the object keeps, and the getters.
use faser_common.Common.{
  ℕ, ◌/◌, ◌^◌, Bool, true, not, ◌&&◌, ◌||◌, ltb, leb, ◌==◌, if◌then◌else◌, bit_and,
}
use faser_common.Common.{Result, ok, throw, List}
use faser_common.TlbMonitoring.{
  TlbMonitoringFragment, TlbMonEvent, TlbMonException, index_out_of_range, data_not_valid,
  frame_check, element, mask_data, mask_first_12b, mask_second_12b, max_trig_line, sizeof_event,
  sizeof_event_v1, mondata_v2_old_size,
}

unfoldable pub checksum : TlbMonitoringFragment → ℕ
checksum f = bit_and f.event.m_checksum mask_data

-- The tests of `valid`.
unfoldable pub verify : TlbMonitoringFragment → Bool
verify f =
    not (f.m_version == 0xff)
    && (if ltb 1 f.m_version
        then f.m_crc_calculated == checksum f
          && (frame_check f && (f.m_size == sizeof_event || f.m_size == mondata_v2_old_size))
        else f.m_size == sizeof_event_v1)

unfoldable pub valid : TlbMonitoringFragment → Bool × TlbMonitoringFragment
valid f =
    if f.m_verified
    then (f.m_valid, f)
    else (verify f, record f { m_valid = verify f; m_verified = true })

-- `if (valid() || m_debug) return x; THROW(...)`
unfoldable pub if_valid :
    TlbMonitoringFragment → ℕ → Result TlbMonException ℕ × TlbMonitoringFragment
if_valid f x = ((if (valid f).0 || f.m_debug then ok x else throw data_not_valid), (valid f).1)

abbrev pub event_id : TlbMonitoringFragment → ℕ
event_id f = bit_and f.event.m_event_id mask_data

abbrev pub bc_id : TlbMonitoringFragment → ℕ
bc_id f = bit_and f.event.m_bc_id mask_first_12b

abbrev pub orbits_lost_counter : TlbMonitoringFragment → ℕ
orbits_lost_counter f = bit_and f.event.m_bc_id mask_second_12b / 2 ^ 12

-- The getters that return one word without its frame identifier.
pub data Counter : Type 0 where
  deadtime_veto_counter busy_veto_counter rate_limiter_veto_counter bcr_veto_counter : Counter
  digitizer_busy_counter tap_ored tav_ored : Counter

abbrev pub counter_word : Counter → TlbMonEvent → ℕ
counter_word deadtime_veto_counter event = event.m_deadtime_veto_counter
counter_word busy_veto_counter event = event.m_busy_veto_counter
counter_word rate_limiter_veto_counter event = event.m_rate_limiter_veto_counter
counter_word bcr_veto_counter event = event.m_bcr_veto_counter
counter_word digitizer_busy_counter event = event.m_digitizer_busy_counter
counter_word tap_ored event = event.m_tap_ored
counter_word tav_ored event = event.m_tav_ored

unfoldable pub counter :
    Counter → TlbMonitoringFragment → Result TlbMonException ℕ × TlbMonitoringFragment
unfolding if_valid
counter c f = if_valid f (bit_and (counter_word c f.event) mask_data)

unfoldable pub orbit_id : TlbMonitoringFragment → Result TlbMonException ℕ × TlbMonitoringFragment
unfolding if_valid
orbit_id f = if_valid f f.event.m_orbit_id

-- The getters of the trigger lines.
pub data Line : Type 0 where
  tbp tap tav : Line

abbrev pub line_words : Line → TlbMonEvent → List ℕ
line_words tbp event = event.m_tbp
line_words tap event = event.m_tap
line_words tav event = event.m_tav

unfoldable pub trig_line :
    Line → TlbMonitoringFragment → ℕ → Result TlbMonException ℕ × TlbMonitoringFragment
unfolding if_valid
trig_line l f i =
    if leb max_trig_line i
    then (throw index_out_of_range, f)
    else if_valid f (bit_and (element (line_words l f.event) i) mask_data)

unfoldable pub has_checksum_error : TlbMonitoringFragment → Bool
has_checksum_error f = not (ltb f.m_version 2) && not (f.m_crc_calculated == checksum f)

unfoldable pub has_frameid_error : TlbMonitoringFragment → Bool
has_frameid_error f = not (frame_check f)

unfoldable pub set_debug_on : Bool → TlbMonitoringFragment → TlbMonitoringFragment
set_debug_on debug f = record f { m_debug = debug }
