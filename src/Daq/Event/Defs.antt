-- ===== src/Daq/Event/Defs.antt =====
-- The state and the operations of `EventFull`.
use faser_common.Common.{ℕ, zero, suc, ◌+◌, ◌-◌, ◌%◌, ◌^◌, ◌<◌, ◌≡◌, bit_or, drop}
use faser_common.Common.{
  List, [], ◌∷◌, ◌++◌, map, length, take, true, not, ltb, ◌==◌, if◌then◌else◌,
}
use faser_common.Common.{Option, none, some, All, Result, ok, throw, ◌>>=◌, ◌>>◌, throw_if}
use faser_common.Common.Bytes.{le_bytes, field, load_bytes}
use faser_common.Common.Words.{u8, u32}
use faser_common.Common.OrderedMap.{find, insert, IsSorted, sum_values}
use faser_common.Daq.Defs.{
  EFormatException, source_value, trigger_source_id, status_value, EventStatus,
}
use faser_common.Daq.Defs.{too_small_event, wrong_event_header, unsupported_event_version}
use faser_common.Daq.Defs.{payload_too_large, event_size_mismatch, payload_size_mismatch}
use faser_common.Daq.Fragment
use faser_common.Daq.Fragment.{EventFragment, IsFragment, decode_fragment}

abbrev pub event_version_latest : ℕ
event_version_latest = 0x0001

abbrev pub event_marker : ℕ
event_marker = 0xBB

-- `sizeof(struct EventHeader)`
abbrev pub sizeof_header : ℕ
sizeof_header = 44

pub record EventHeader : Type 0 where
  pub marker : ℕ
  pub event_tag : ℕ
  pub trigger_bits : ℕ
  pub version_number : ℕ
  pub header_size : ℕ
  pub payload_size : ℕ
  pub fragment_count : ℕ
  pub run_number : ℕ
  pub event_id : ℕ
  pub event_counter : ℕ
  pub bc_id : ℕ
  pub status : ℕ
  pub timestamp : ℕ

-- The bytes of the packed structure; the 24-bit field `run_number` takes three.
unfoldable pub header_bytes : EventHeader → List ℕ
header_bytes h =
    le_bytes 1 h.marker
    ++ (le_bytes 1 h.event_tag
        ++ (le_bytes 2 h.trigger_bits
            ++ (le_bytes 2 h.version_number
                ++ (le_bytes 2 h.header_size
                    ++ (le_bytes 4 h.payload_size
                        ++ (le_bytes 1 h.fragment_count
                            ++ (le_bytes 3 h.run_number
                                ++ (le_bytes 8 h.event_id
                                    ++ (le_bytes 8 h.event_counter
                                        ++ (le_bytes 2 h.bc_id
                                            ++ (le_bytes 2 h.status
                                                ++ le_bytes 8 h.timestamp)))))))))))

unfoldable pub header_of_bytes : List ℕ → EventHeader
header_of_bytes buf = record {
  marker = field 0 1 buf;
  event_tag = field 1 1 buf;
  trigger_bits = field 2 2 buf;
  version_number = field 4 2 buf;
  header_size = field 6 2 buf;
  payload_size = field 8 4 buf;
  fragment_count = field 12 1 buf;
  run_number = field 13 3 buf;
  event_id = field 16 8 buf;
  event_counter = field 24 8 buf;
  bc_id = field 32 2 buf;
  status = field 34 2 buf;
  timestamp = field 36 8 buf;
}

abbrev pub FragmentMap : Type 0
FragmentMap = List (ℕ × EventFragment)

pub record EventFull : Type 0 where
  pub header : EventHeader
  pub fragments : FragmentMap

-- The constructor of an empty event; `now` is what the clock says, in microseconds.
unfoldable pub make_event : ℕ → ℕ → ℕ → ℕ → EventFull
make_event now event_tag run_number event_number = record {
  header = record {
    marker = event_marker;
    event_tag = event_tag;
    trigger_bits = 0;
    version_number = event_version_latest;
    header_size = sizeof_header;
    payload_size = 0;
    fragment_count = 0;
    run_number = run_number % 2 ^ 24;
    event_id = 0;
    event_counter = event_number;
    bc_id = 0xFFFF;
    status = 0;
    timestamp = now;
  };
  fragments = [];
}

unfoldable pub update_status : EventFull → ℕ → EventFull
update_status ev status =
    let h = ev.header in record ev { header = record h { status = bit_or h.status status } }

-- `rawAppend` of each fragment, in the order of the map.
unfoldable pub append_fragments : FragmentMap → List ℕ → List ℕ
append_fragments [] full = full
append_fragments ((id, f) ∷ rest) full = append_fragments rest (Fragment.raw_append f full)

unfoldable pub raw : EventFull → List ℕ
unfolding append_fragments
raw ev = append_fragments ev.fragments (header_bytes ev.header)

-- The first fragment gives the event its bunch crossing and its id.
unfoldable pub adopt_first : EventHeader → EventFragment → EventHeader
adopt_first h f =
    if h.fragment_count == 0
    then record h { bc_id = f.header.bc_id; event_id = f.header.event_id }
    else h

-- The count, the trigger bits and the size with one fragment more.
unfoldable pub account : EventHeader → EventFragment → EventHeader
account h f = record h {
  fragment_count = u8 (h.fragment_count + 1);
  trigger_bits = bit_or h.trigger_bits f.header.trigger_bits;
  payload_size = u32 (h.payload_size + Fragment.size_of f);
}

-- The flag of a fragment of another bunch crossing.
unfoldable pub mismatch : EventHeader → EventFragment → ℕ
mismatch h f = if h.bc_id == f.header.bc_id then 0 else status_value EventStatus.bcid_mismatch

-- The trigger fragment's bunch crossing is the event's.
unfoldable pub prefer_trigger : EventHeader → EventFragment → EventHeader
prefer_trigger h f =
    if f.header.source_id == source_value trigger_source_id
    then record h { bc_id = f.header.bc_id }
    else h

-- `addFragment`: the new event and the returned status.
unfoldable pub add_fragment : EventFull → EventFragment → Result EFormatException (EventFull × ℕ)
unfolding adopt_first account mismatch prefer_trigger update_status
add_fragment ev f = elim (find f.header.source_id ev.fragments) [
  | some old ↦ throw EFormatException.duplicate_fragment
  | none ↦
      let h = account (adopt_first ev.header f) f in
      let status = mismatch h f in
      let added : EventFull = record {
        header = prefer_trigger h f;
        fragments = insert f.header.source_id f ev.fragments;
      } in
      ok (update_status added (bit_or f.header.status status), status)
]

-- The loop that decodes the fragments from what is left of the payload. A decoded fragment is not
-- larger than what is left, so that the subtraction does not wrap.
unfoldable pub load_fragments : ℕ → List ℕ → ℕ → FragmentMap → Result EFormatException FragmentMap
load_fragments zero payload left fragments = ok fragments
load_fragments (suc rounds) payload left fragments = do
  f ← decode_fragment payload left true
  load_fragments rounds (drop (Fragment.size_of f) payload) (left - Fragment.size_of f)
      (insert f.header.source_id f fragments)

-- The header's tests, after it was copied from the stream or the buffer.
unfoldable pub check_header : EventHeader → Result EFormatException (Unit {0})
check_header h = do
  throw_if (not (h.marker == event_marker)) wrong_event_header
  throw_if (not (h.version_number == event_version_latest)) unsupported_event_version

-- `loadHeader`: the event with its new header, and the size that is returned.
unfoldable pub load_header : EventFull → List ℕ → ℕ → Result EFormatException (EventFull × ℕ)
unfolding check_header
load_header ev buf datasize = do
  throw_if (ltb datasize sizeof_header) too_small_event
  _ ← load_bytes buf 0 sizeof_header
  let h = header_of_bytes buf
  check_header h
  ok (record ev { header = h }, h.header_size)

-- `loadPayload`
unfoldable pub load_payload : EventFull → List ℕ → ℕ → Result EFormatException EventFull
unfolding load_fragments
load_payload ev buf datasize = do
  throw_if (not (datasize == ev.header.payload_size)) payload_size_mismatch
  fragments ← load_fragments ev.header.fragment_count buf datasize ev.fragments
  ok (record ev { fragments = fragments })

-- The constructor from a buffer. The members that it does not set are those of `junk`; the size
-- left is a `size_t` difference that is cut to 32 bits.
unfoldable pub event_of_bytes : EventHeader → List ℕ → ℕ → Result EFormatException EventFull
unfolding load_header load_payload
event_of_bytes junk buf eventsize = do
  (ev, size) ← load_header (record { header = junk; fragments = [] }) buf eventsize
  load_payload ev (drop ev.header.header_size buf)
      (u32 (eventsize + 2 ^ 64 - ev.header.header_size))

-- The constructor from a stream: the event and what is left of the stream.
unfoldable pub read_event : List ℕ → Result EFormatException (EventFull × List ℕ)
unfolding load_fragments check_header
read_event input = do
  throw_if (ltb (length input) sizeof_header) too_small_event
  let h = header_of_bytes input
  check_header h
  throw_if (ltb 1000000 h.payload_size) payload_too_large
  let behind = drop sizeof_header input
  throw_if (ltb (length behind) h.payload_size) event_size_mismatch
  fragments ← load_fragments h.fragment_count (take h.payload_size behind) h.payload_size []
  ok (record { header = h; fragments = fragments }, drop h.payload_size behind)

-- `status()`, which returns an `uint8_t`.
abbrev pub status : EventFull → ℕ
status ev = u8 ev.header.status

-- `size()`
abbrev pub size_of : EventFull → ℕ
size_of ev = u32 (ev.header.header_size + ev.header.payload_size)

unfoldable pub get_fragment_ids : EventFull → List ℕ
get_fragment_ids ev = map (λ e. e.0) ev.fragments

unfoldable pub find_fragment : EventFull → ℕ → Option EventFragment
find_fragment ev source_id = find source_id ev.fragments

-- The values that the structure's fields can hold.
pub record IsHeader (h : EventHeader) : Type 0 where
  pub marker_fits : h.marker < 256 ^ 1
  pub event_tag_fits : h.event_tag < 256 ^ 1
  pub trigger_bits_fits : h.trigger_bits < 256 ^ 2
  pub version_number_fits : h.version_number < 256 ^ 2
  pub header_size_fits : h.header_size < 256 ^ 2
  pub payload_size_fits : h.payload_size < 256 ^ 4
  pub fragment_count_fits : h.fragment_count < 256 ^ 1
  pub run_number_fits : h.run_number < 256 ^ 3
  pub event_id_fits : h.event_id < 256 ^ 8
  pub event_counter_fits : h.event_counter < 256 ^ 8
  pub bc_id_fits : h.bc_id < 256 ^ 2
  pub status_fits : h.status < 256 ^ 2
  pub timestamp_fits : h.timestamp < 256 ^ 8

-- An entry of the map: a well-formed fragment under its own source id.
abbrev pub IsEntry : ℕ × EventFragment → Type 0
IsEntry e = (e.0 ≡ e.1.header.source_id) × IsFragment e.1

-- The number of bytes of a fragment.
abbrev pub bytes_of : EventFragment → ℕ
bytes_of f = length (Fragment.raw f)

-- An event of the present version whose header describes its fragments.
pub record IsEvent (ev : EventFull) : Type 0 where
  pub header_fits : IsHeader ev.header
  pub marked : ev.header.marker ≡ event_marker
  pub versioned : ev.header.version_number ≡ event_version_latest
  pub header_measured : ev.header.header_size ≡ sizeof_header
  pub payload_measured : ev.header.payload_size ≡ sum_values bytes_of ev.fragments
  pub counted : ev.header.fragment_count ≡ length ev.fragments
  pub sorted : IsSorted ev.fragments
  pub entries : All IsEntry ev.fragments
