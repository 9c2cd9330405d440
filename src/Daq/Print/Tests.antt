-- ===== src/Daq/Print/Tests.antt =====
-- A line of the reference output.
use faser_common.Common.{◌≡◌, refl, []}
use faser_common.Stream.{plain_stream, codes, puts, number_text, padded}
use faser_common.Daq.Fragment.{EventFragment}
use faser_common.Daq.Event.{EventFull}
use faser_common.Daq.Print.{print_event, print_fragment}

abbrev event : EventFull
event = record {
  header = record {
    marker = 0xBB;
    event_tag = 0;
    trigger_bits = 0;
    version_number = 1;
    header_size = 44;
    payload_size = 3384;
    fragment_count = 5;
    run_number = 603;
    event_id = 876190;
    event_counter = 876190;
    bc_id = 1662;
    status = 2;
    timestamp = 1608560589557964;
  };
  fragments = [];
}

abbrev fragment : EventFragment
fragment = record {
  header = record {
    marker = 0xAA;
    fragment_tag = 0;
    trigger_bits = 0;
    version_number = 1;
    header_size = 36;
    payload_size = 24;
    source_id = 0x20000;
    event_id = 876190;
    bc_id = 1660;
    status = 0;
    timestamp = 0;
  };
  fragment = [];
}

event_printed :
    print_event (plain_stream []) event
    ≡ plain_stream (
        codes
          "Event:   876190 (0x000d5e9e)  run=603 tag=0 bc=1662 trig=0x0000 status=0x0002 time=1608560589557964 #fragments=5 payload=  3384 bytes")
unfolding print_event puts number_text padded
event_printed = refl

fragment_printed :
    print_fragment (plain_stream []) fragment
    ≡ plain_stream
        (codes " Fragment: tag=0 source=0x20000 bc=1660 status=0x0000 payload=   24 bytes")
unfolding print_fragment puts number_text padded
fragment_printed = refl
