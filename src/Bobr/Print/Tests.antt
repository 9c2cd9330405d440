-- ===== src/Bobr/Print/Tests.antt =====
-- A fragment with two faults.
use faser_common.Common.{◌++◌}
use faser_common.Bobr.Print.Report.{report, print_fragment-report_beam}
use faser_common.Common.{◌≡◌, refl, [], false}
use faser_common.Common.OrderedMap.{find}
use faser_common.Stream.{codes, plain_stream, puts, number_text, padded}
use faser_common.Bobr.{
  BobrDataFragment, machinemode_txt, clock_unlocked, ttc_ready, local_40mhz_present,
  local_turnclock_present, ttcb_available, ttc_errors,
}
use faser_common.Bobr.Print.{print_fragment, momentum_text}

abbrev beam : BobrDataFragment
beam = record {
  event = record {
    m_header = 0xB0B1;
    m_status = 0xD00;
    m_gpstime_seconds = 1650000000;
    m_gpstime_useconds = 1234;
    m_turncount = 77;
    m_fillnumber = 8000;
    m_machinemode = 11;
    m_beam_momentum = 56667;
    m_beam1_intensity = 0;
    m_beam2_intensity = 12;
  };
  m_size = 32;
  m_debug = false;
}

beam_printed :
    print_fragment (plain_stream []) beam
    ≡ plain_stream (
        codes
          "                   Status:                           0x0d00\n                            No LHC clock\n                 gps_time:                1650000000.001234\n           LHC turn count:                               77\n          LHC fill number:                             8000\n         LHC machine mode:                 STABLE BEAM (11)\n      Beam momentum [GeV]:                          6800.04\n Beam 1 intensity [1e10p]:                                0\n Beam 2 intensity [1e10p]:                               12\n")
unfolding print_fragment puts number_text padded momentum_text machinemode_txt find clock_unlocked
    ttc_ready local_40mhz_present local_turnclock_present ttcb_available ttc_errors
beam_printed = refl

print_fragment-report_beam_example :
    print_fragment (plain_stream (codes "> ")) beam ≡ plain_stream (codes "> " ++ report beam)
print_fragment-report_beam_example = print_fragment-report_beam (codes "> ") beam
