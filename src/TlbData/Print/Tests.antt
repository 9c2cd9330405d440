-- ===== src/TlbData/Print/Tests.antt =====
-- The first event of the reference output, and a payload that is too short.
use faser_common.Common.{◌++◌, ◌||◌, ◌==◌, ltb, if◌then◌else◌}
use faser_common.TlbData.Print.Report.{report, corrupted_text, version_text}
use faser_common.Common.{◌≡◌, refl, ok, [], false}
use faser_common.Stream.{codes, plain_stream, run, puts, number_text, padded, bitset_text}
use faser_common.TlbData.{TlbDataFragment, valid, checksum, frame_check, verify, if_valid}
use faser_common.TlbData.{has_checksum_error, has_frameid_error}
use faser_common.TlbData.Print.{print_fragment}
use faser_common.TlbData.Print.Report.{kept, print_fragment-report}
use faser_common.Exceptions.{what}

-- The fragment with the checksum that its bytes were found to have.
abbrev event : TlbDataFragment
event = record {
  event = record {
    m_header = 0xFEAD00A0;
    m_event_id = 0x100D5E9E;
    m_orbit_id = 508490227;
    m_bc_id = 0x3000067C;
    m_input_bits_next_clk = 0;
    m_input_bits = 0;
    m_tbptap = 0xC410;
    m_checksum = 0xE0123456;
  };
  m_size = 24;
  m_version = 2;
  m_debug = false;
  m_crc_calculated = 0x123456;
  m_verified = false;
  m_valid = false;
}

abbrev short_event : TlbDataFragment
short_event = record event { m_size = 20 }

event_printed :
    (print_fragment [] (plain_stream []) event).1
    ≡ plain_stream (
        codes
          "            event_id:                           876190\n            orbit_id:                        508490227\n               bc_id:                             1660\n                 TAP:                           010000\n                 TBP:                           010000\n          input_bits:                         00000000\n input_bits_next_clk:                         00000000\n    ext. orbits lost:                                0\n\ndata format version: 0x2\n")
unfolding print_fragment run puts number_text padded bitset_text valid verify checksum frame_check
    if_valid
event_printed = refl

short_event_printed :
    (print_fragment (codes "TLBDataFragment.hpp") (plain_stream []) short_event).1
    ≡ plain_stream (
        codes
          "            event_id:                           876190\n            orbit_id: Exception thrown: TLBDataFragment.hpp:92: Data not valid\nCorrupted data for TLB data event 876190, bcid 1660\nFragment size is 20 bytes total\nchecksum errors present 0\nframeid errors present 0\n\ndata format version: 0x2\n")
unfolding print_fragment run puts number_text padded bitset_text valid verify checksum frame_check
    if_valid has_checksum_error has_frameid_error what
short_event_printed = refl

print_fragment-report_example :
    print_fragment (codes "TLBDataFragment.hpp") (plain_stream (codes "> ")) short_event ≡ (
      ok tt,
      plain_stream (
          (codes "> "
            ++ (if (valid short_event).0 || short_event.m_debug
                then report short_event
                else corrupted_text
                    (ltb 0x1 short_event.m_version)
                    (codes "TLBDataFragment.hpp")
                    short_event))
          ++ version_text (short_event.m_version == 0xff) short_event),
      kept short_event,
    )
print_fragment-report_example =
    print_fragment-report (codes "TLBDataFragment.hpp") (codes "> ") short_event
