-- ===== src/Bobr/Tests.antt =====
-- A fragment in stable beam.
use faser_common.Common.{ℕ, ◌≡◌, refl, List, [], ◌∷◌, ◌++◌, false, ok, arith}
use faser_common.Common.OrderedMap.{find}
use faser_common.Bobr.{BobrEvent, BobrDataFragment, make_fragment, machinemode_txt, stable_beam}
use faser_common.Bobr.RoundTrip.{event_bytes, IsBobrEvent, make_fragment-event_bytes}

abbrev beam : BobrEvent
beam = record {
  m_header = 0xB0B1;
  m_status = 0x0F00;
  m_gpstime_seconds = 1650000000;
  m_gpstime_useconds = 999999;
  m_turncount = 70000;
  m_fillnumber = 7920;
  m_machinemode = 11;
  m_beam_momentum = 6800;
  m_beam1_intensity = 2000;
  m_beam2_intensity = 2001;
}

abbrev fragment : BobrDataFragment
fragment = record { event = beam; m_size = 32; m_debug = false }

beam-IsBobrEvent : IsBobrEvent beam
beam-IsBobrEvent = record {
  header_fits = omega arith;
  status_fits = omega arith;
  gpstime_seconds_fits = omega arith;
  gpstime_useconds_fits = omega arith;
  turncount_fits = omega arith;
  fillnumber_fits = omega arith;
  machinemode_fits = omega arith;
  beam_momentum_fits = omega arith;
  beam1_intensity_fits = omega arith;
  beam2_intensity_fits = omega arith;
}

machinemode_txt-fragment : machinemode_txt fragment ≡ stable_beam
unfolding machinemode_txt find
machinemode_txt-fragment = refl

make_fragment-event_bytes_example :
    make_fragment (event_bytes beam ++ (7 ∷ [])) 32
    ≡ ok record { event = beam; m_size = 32; m_debug = false }
make_fragment-event_bytes_example = make_fragment-event_bytes beam (7 ∷ []) beam-IsBobrEvent refl

abbrev short_buffer : List ℕ
short_buffer = 0xB1 ∷ 0xB0 ∷ []
