-- ===== src/Daq/Event/Tests.antt =====
-- A concrete event, and the theorems at it.
use faser_common.Common.{◌<◌, List, Bool, true, false, ltb, ltb→lt, ◌&&◌}
use faser_common.Daq.Event.Types.{read_event-IsHeader}
use Prim.Native.Nat.{max}
use faser_common.Common.{◌≤◌, ◌+◌, length, take, drop}
use faser_common.Common.Bits.Digit.{bit}
use faser_common.Daq.Event.Defs.{IsHeader}
use faser_common.Common.Bytes.{IsBytes}
use faser_common.Common.{
  ℕ, ◌≡◌, ◌≢◌, refl, arith, [], ◌∷◌, ◌++◌, bit_or, if◌then◌else◌, ◌==◌, some, ok, throw,
}
use faser_common.Common.OrderedMap.{find, insert}
use faser_common.Daq.Defs.{EFormatException}
use faser_common.Daq.Fragment
use faser_common.Daq.Fragment.{EventFragment, IsFragment, fresh_header}
use faser_common.Daq.Event.Defs.{
  EventFull, IsEvent, make_event, add_fragment, raw, read_event, event_of_bytes, header_bytes,
  size_of, status, update_status,
}
use faser_common.Daq.Event.Add.{add_fragment-IsEvent, add_fragment-header}
use faser_common.Daq.Event.RoundTrip.{read_event-raw, event_of_bytes-raw}
use faser_common.Daq.Event.Status.{status-update_status}

abbrev trigger : EventFragment
trigger = record { header = fresh_header 1000 0 0x020000 77 1660 3; fragment = 1 ∷ 2 ∷ 3 ∷ [] }

abbrev tracker : EventFragment
tracker = record { header = fresh_header 1001 0 0x030006 77 1666 2; fragment = 8 ∷ 9 ∷ [] }

abbrev empty_event : EventFull
empty_event = record {
  header = record {
    marker = 0xBB;
    event_tag = 0;
    trigger_bits = 0;
    version_number = 1;
    header_size = 44;
    payload_size = 0;
    fragment_count = 0;
    run_number = 603;
    event_id = 0;
    event_counter = 12;
    bc_id = 0xFFFF;
    status = 0;
    timestamp = 5000;
  };
  fragments = [];
}

-- An event with the fragments of the tracker and the trigger, added in this order.
abbrev full_event : EventFull
full_event = record {
  header = record {
    marker = 0xBB;
    event_tag = 0;
    trigger_bits = 0;
    version_number = 1;
    header_size = 44;
    payload_size = 77;
    fragment_count = 2;
    run_number = 603;
    event_id = 77;
    event_counter = 12;
    bc_id = 1660;
    status = 2;
    timestamp = 5000;
  };
  fragments = (0x020000, trigger) ∷ (0x030006, tracker) ∷ [];
}

abbrev half_event : EventFull
half_event = record {
  header = record {
    marker = 0xBB;
    event_tag = 0;
    trigger_bits = 0;
    version_number = 1;
    header_size = 44;
    payload_size = 38;
    fragment_count = 1;
    run_number = 603;
    event_id = 77;
    event_counter = 12;
    bc_id = 1666;
    status = 0;
    timestamp = 5000;
  };
  fragments = (0x030006, tracker) ∷ [];
}

built :
    (make_event 5000 0 603 12 ≡ empty_event)
    × (add_fragment empty_event tracker ≡ ok (half_event, 0))
    × (add_fragment half_event trigger ≡ ok (full_event, 2))
    × (add_fragment half_event tracker ≡ throw EFormatException.duplicate_fragment)
unfolding make_event add_fragment find insert
built = (refl, refl, refl, refl)

half_event-IsEvent : IsEvent half_event
unfolding Fragment.raw Fragment.header_bytes
half_event-IsEvent = omega arith

full_event-IsEvent : IsEvent full_event
unfolding Fragment.raw Fragment.header_bytes
full_event-IsEvent = omega arith

trigger-IsFragment : IsFragment trigger
trigger-IsFragment = omega arith

add_fragment-IsEvent_example :
    (ev' : EventFull) × (st : ℕ) × (add_fragment half_event trigger ≡ ok (ev', st))
    × IsEvent ev'
    × ((j : ℕ)
        → find j ev'.fragments
          ≡ (if j == 0x020000 then some trigger else find j half_event.fragments))
unfolding find Fragment.raw Fragment.header_bytes
add_fragment-IsEvent_example =
    add_fragment-IsEvent half_event trigger half_event-IsEvent trigger-IsFragment refl (omega arith)
      (omega arith)

add_fragment-header_example :
    (ev' : EventFull) × (st : ℕ) × (add_fragment half_event trigger ≡ ok (ev', st))
    × (half_event.header.fragment_count ≡ 0
        → (st ≡ 0) × (ev'.header.bc_id ≡ 1660) × (ev'.header.event_id ≡ 77))
    × (half_event.header.fragment_count ≢ 0
        → (st ≡ (if 1666 == 1660 then 0 else 2))
          × (ev'.header.event_id ≡ 77)
          × (ev'.header.bc_id ≡ (if 0x020000 == 0x020000 then 1660 else 1666)))
    × (ev'.header.status ≡ bit_or 0 (bit_or 0 st))
    × (ev'.header.trigger_bits ≡ bit_or 0 0)
unfolding find
add_fragment-header_example = add_fragment-header half_event trigger refl

read_event-raw_example : read_event (raw full_event ++ (1 ∷ [])) ≡ ok (full_event, 1 ∷ [])
read_event-raw_example = read_event-raw full_event (1 ∷ []) full_event-IsEvent (omega arith)

event_of_bytes-raw_example :
    event_of_bytes empty_event.header (raw full_event ++ (1 ∷ [])) (size_of full_event)
    ≡ ok full_event
event_of_bytes-raw_example =
    event_of_bytes-raw full_event (1 ∷ []) full_event-IsEvent empty_event.header (omega arith)

-- The flags of a timeout and of an empty fragment; the first is seen through the getter.
status-update_status_example :
    (bit 3 (update_status full_event 0x108).header.status ≡ max (bit 3 2) (bit 3 0x108))
    × (3 < 8 → bit 3 (status (update_status full_event 0x108)) ≡ max (bit 3 2) (bit 3 0x108))
    × (8 ≤ 3 → bit 3 (status (update_status full_event 0x108)) ≡ 0)
status-update_status_example = status-update_status full_event 0x108 3

abbrev are_bytes : List ℕ → Bool
are_bytes [] = true
are_bytes (b ∷ bs) = ltb b 256 && are_bytes bs

and_both : (x y : Bool) → (x && y) ≡ true → (x ≡ true) × (y ≡ true)
and_both true y h = (refl, h)
and_both false y h = cc h

are_bytes-IsBytes : (bs : List ℕ) → are_bytes bs ≡ true → IsBytes bs
are_bytes-IsBytes [] h = tt
are_bytes-IsBytes (b ∷ bs) h =
    let (small, more) = and_both (ltb b 256) (are_bytes bs) h in
    (ltb→lt b 256 small, are_bytes-IsBytes bs more)

encoded-IsBytes : IsBytes (raw full_event ++ (1 ∷ []))
unfolding raw header_bytes Fragment.raw_append Fragment.header_bytes
encoded-IsBytes = are_bytes-IsBytes (raw full_event ++ (1 ∷ [])) refl

read_event-IsHeader_example :
    IsHeader full_event.header
    × (header_bytes full_event.header ≡ take 44 (raw full_event ++ (1 ∷ [])))
    × (full_event.header.marker ≡ 0xBB)
    × (full_event.header.version_number ≡ 1)
    × (full_event.header.payload_size ≤ 1000000)
    × (44 + full_event.header.payload_size ≤ length (raw full_event ++ (1 ∷ [])))
    × ((1 ∷ []) ≡ drop (44 + full_event.header.payload_size) (raw full_event ++ (1 ∷ [])))
read_event-IsHeader_example =
    read_event-IsHeader (raw full_event ++ (1 ∷ [])) (1 ∷ []) full_event encoded-IsBytes
      (read_event-raw full_event (1 ∷ []) full_event-IsEvent (omega arith))
