-- ===== src/TlbMonitoring/Print/Tests.antt =====
-- The first event of the reference output.
use faser_common.Common.{◌++◌, ◌||◌, ◌==◌, ltb, not, if◌then◌else◌}
use faser_common.TlbMonitoring.Print.Answers.{kept}
use faser_common.TlbMonitoring.Print.Report.{
  report, corrupted_text, version_text, print_fragment-report_counters,
}
use faser_common.Common.{◌≡◌, refl, ok, [], ◌∷◌, false, true}
use faser_common.Stream.{codes, plain_stream, run, puts, number_text, padded}
use faser_common.TlbMonitoring.{TlbMonitoringFragment}
use faser_common.TlbMonitoring.Access.{valid, if_valid, trig_line, counter, orbit_id}
use faser_common.TlbMonitoring.Print.{print_fragment, report_steps, line_steps}

abbrev event : TlbMonitoringFragment
event = record {
  event = record {
    m_header = 0xFEAD0005;
    m_event_id = 0x10000000;
    m_orbit_id = 11245;
    m_bc_id = 0x30000DE4;
    m_tbp = 0x4000000A ∷ 0x41000033 ∷ 0x42000001 ∷ 0x43000001 ∷ 0x44000467 ∷ 0x45000000 ∷ [];
    m_tap = 0x5000000A ∷ 0x51000006 ∷ 0x52000001 ∷ 0x53000001 ∷ 0x54000467 ∷ 0x55000000 ∷ [];
    m_tav = 0x60000000 ∷ 0x61000000 ∷ 0x62000000 ∷ 0x63000000 ∷ 0x64000000 ∷ 0x65000000 ∷ [];
    m_deadtime_veto_counter = 1;
    m_busy_veto_counter = 0;
    m_rate_limiter_veto_counter = 0;
    m_bcr_veto_counter = 4;
    m_digitizer_busy_counter = 0;
    m_tap_ored = 0xF0000477;
    m_tav_ored = 0xF0000000;
    m_checksum = 0xD0000000;
  };
  m_size = 120;
  m_version = 2;
  m_debug = false;
  m_crc_calculated = 0;
  m_verified = true;
  m_valid = true;
}

event_printed :
    (print_fragment [] (plain_stream []) event).1
    ≡ plain_stream (
        codes
          " event_id: 0, orbit_id: 11245, bc_id:    3556\n\ttbp0:                       10\ttap0:                       10\ttav0:                        0\n\ttbp1:                       51\ttap1:                        6\ttav1:                        0\n\ttbp2:                        1\ttap2:                        1\ttav2:                        0\n\ttbp3:                        1\ttap3:                        1\ttav3:                        0\n\ttbp4:                     1127\ttap4:                     1127\ttav4:                        0\n\ttbp5:                        0\ttap5:                        0\ttav5:                        0\n deadtime veto count: 1, busy veto count: 0, rate_limiter veto count: 0, bcr veto count: 4, digi busy veto count: 0\n TAP ORed: 1143, TAV ORed: 0\n ext. orbits lost: 0\n\ndata format version: 0x2\n")
unfolding print_fragment run puts number_text padded valid if_valid trig_line counter orbit_id
    report_steps line_steps
event_printed = refl

print_fragment-report_counters_example :
    print_fragment (codes "TLBMonitoringFragment.hpp") (plain_stream (codes "> ")) event ≡ (
      ok tt,
      plain_stream (
          (codes "> "
            ++ (if (valid event).0 || event.m_debug
                then report (ltb 1 event.m_version) (not (event.m_size == 112)) event
                else corrupted_text
                    (ltb 1 event.m_version)
                    (codes "TLBMonitoringFragment.hpp")
                    event))
          ++ version_text (event.m_version == 0xff) event),
      kept event,
    )
print_fragment-report_counters_example =
    print_fragment-report_counters (codes "TLBMonitoringFragment.hpp") (codes "> ") event
