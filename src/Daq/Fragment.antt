-- ===== src/Daq/Fragment.antt =====
-- `EventFragment` of DAQFormats.hpp: a packed header of 36 bytes and the payload behind it.
-- A buffer is the list of the bytes that the pointer leads to; a read behind them is a fault.
mod Tests
pub mod Getters
pub mod Codec
pub mod Steps
pub mod RoundTrip
pub mod Safety
use faser_common.Common.{ℕ, ◌+◌, ◌^◌, ◌<◌, ◌≡◌, List, ◌++◌, Bool, not, ◌&&◌, ltb, ◌==◌, length}
use faser_common.Common.{Result, ok, ◌>>=◌, ◌>>◌, throw_if}
use faser_common.Common.Bytes.{IsBytes, le_bytes, field, load, load_bytes}
use faser_common.Common.Words.{u32}
use faser_common.Daq.Defs.{EFormatException, too_little_header, no_fragment_header}
use faser_common.Daq.Defs.{unsupported_fragment_version, too_little_data, fragment_size_mismatch}

abbrev pub fragment_version_latest : ℕ
fragment_version_latest = 0x0001

abbrev pub fragment_marker : ℕ
fragment_marker = 0xAA

-- `sizeof(struct EventFragmentHeader)`
abbrev pub sizeof_header : ℕ
sizeof_header = 36

pub record EventFragmentHeader : Type 0 where
  pub marker : ℕ
  pub fragment_tag : ℕ
  pub trigger_bits : ℕ
  pub version_number : ℕ
  pub header_size : ℕ
  pub payload_size : ℕ
  pub source_id : ℕ
  pub event_id : ℕ
  pub bc_id : ℕ
  pub status : ℕ
  pub timestamp : ℕ

-- The bytes of the packed structure, as `rawAppend` copies them.
unfoldable pub header_bytes : EventFragmentHeader → List ℕ
header_bytes h =
    le_bytes 1 h.marker
    ++ (le_bytes 1 h.fragment_tag
        ++ (le_bytes 2 h.trigger_bits
            ++ (le_bytes 2 h.version_number
                ++ (le_bytes 2 h.header_size
                    ++ (le_bytes 4 h.payload_size
                        ++ (le_bytes 4 h.source_id
                            ++ (le_bytes 8 h.event_id
                                ++ (le_bytes 2 h.bc_id
                                    ++ (le_bytes 2 h.status ++ le_bytes 8 h.timestamp)))))))))

-- The structure that the first 36 bytes of a buffer are read as.
unfoldable pub header_of_bytes : List ℕ → EventFragmentHeader
header_of_bytes buf = record {
  marker = field 0 1 buf;
  fragment_tag = field 1 1 buf;
  trigger_bits = field 2 2 buf;
  version_number = field 4 2 buf;
  header_size = field 6 2 buf;
  payload_size = field 8 4 buf;
  source_id = field 12 4 buf;
  event_id = field 16 8 buf;
  bc_id = field 24 2 buf;
  status = field 26 2 buf;
  timestamp = field 28 8 buf;
}

pub record EventFragment : Type 0 where
  pub header : EventFragmentHeader
  pub fragment : List ℕ

abbrev pub fresh_header : ℕ → ℕ → ℕ → ℕ → ℕ → ℕ → EventFragmentHeader
fresh_header now fragment_tag source_id event_id bc_id payloadsize = record {
  marker = fragment_marker;
  fragment_tag = fragment_tag;
  trigger_bits = 0;
  version_number = fragment_version_latest;
  header_size = sizeof_header;
  payload_size = u32 payloadsize;
  source_id = source_id;
  event_id = event_id;
  bc_id = bc_id;
  status = 0;
  timestamp = now;
}

-- The constructor from a payload; `now` is what the clock says, in microseconds.
unfoldable pub make_fragment :
    ℕ → ℕ → ℕ → ℕ → ℕ → List ℕ → ℕ → Result EFormatException EventFragment
make_fragment now fragment_tag source_id event_id bc_id payload payloadsize = do
  bytes ← load_bytes payload 0 payloadsize
  ok (record {
    header = fresh_header now fragment_tag source_id event_id bc_id payloadsize;
    fragment = bytes;
  })

-- The constructor from encoded bytes, in three parts: the tests of size, marker and version.
pub check_version : List ℕ → ℕ → Result EFormatException (Unit {0})
check_version buf size = do
  throw_if (ltb size 8) too_little_header
  marker ← load buf 0 1
  throw_if (not (marker == fragment_marker)) no_fragment_header
  version_number ← load buf 4 2
  throw_if (not (version_number == fragment_version_latest)) unsupported_fragment_version

-- The tests of the two sizes that the header gives; their sum is an `uint32_t`.
pub check_sizes : List ℕ → ℕ → Bool → Result EFormatException (ℕ × ℕ)
check_sizes buf size allow_excess_data = do
  header_size ← load buf 6 2
  throw_if (ltb size header_size) too_little_header
  payload_size ← load buf 8 4
  let total = u32 (header_size + payload_size)
  throw_if (ltb size total) too_little_data
  throw_if (not (size == total) && not allow_excess_data) fragment_size_mismatch
  ok (header_size, payload_size)

-- The copies; the bounds of the payload are pointers, which do not wrap.
pub copy_fragment : List ℕ → ℕ × ℕ → Result EFormatException EventFragment
copy_fragment buf (header_size, payload_size) = do
  bytes ← load_bytes buf header_size payload_size
  _ ← load_bytes buf 0 sizeof_header
  ok (record { header = header_of_bytes buf; fragment = bytes })

unfoldable pub decode_fragment : List ℕ → ℕ → Bool → Result EFormatException EventFragment
unfolding check_version check_sizes copy_fragment
decode_fragment buf size allow_excess_data = do
  check_version buf size
  sizes ← check_sizes buf size allow_excess_data
  copy_fragment buf sizes

unfoldable pub raw : EventFragment → List ℕ
raw f = header_bytes f.header ++ f.fragment

unfoldable pub raw_append : EventFragment → List ℕ → List ℕ
raw_append f bytes = (bytes ++ header_bytes f.header) ++ f.fragment

pub set_status : EventFragment → ℕ → EventFragment
set_status f status = let h = f.header in record f { header = record h { status = status } }

pub set_trigger_bits : EventFragment → ℕ → EventFragment
set_trigger_bits f bits = let h = f.header in record f { header = record h { trigger_bits = bits } }

pub set_fragment_tag : EventFragment → ℕ → EventFragment
set_fragment_tag f tag = let h = f.header in record f { header = record h { fragment_tag = tag } }

-- `size()`, the sum as an `uint32_t`; the other getters are the header's fields.
abbrev pub size_of : EventFragment → ℕ
size_of f = u32 (f.header.header_size + f.header.payload_size)

-- The values that the structure's fields can hold.
pub record IsHeader (h : EventFragmentHeader) : Type 0 where
  pub marker_fits : h.marker < 256 ^ 1
  pub fragment_tag_fits : h.fragment_tag < 256 ^ 1
  pub trigger_bits_fits : h.trigger_bits < 256 ^ 2
  pub version_number_fits : h.version_number < 256 ^ 2
  pub header_size_fits : h.header_size < 256 ^ 2
  pub payload_size_fits : h.payload_size < 256 ^ 4
  pub source_id_fits : h.source_id < 256 ^ 4
  pub event_id_fits : h.event_id < 256 ^ 8
  pub bc_id_fits : h.bc_id < 256 ^ 2
  pub status_fits : h.status < 256 ^ 2
  pub timestamp_fits : h.timestamp < 256 ^ 8

-- A fragment of the present version whose header describes its payload.
pub record IsFragment (f : EventFragment) : Type 0 where
  pub header_fits : IsHeader f.header
  pub marked : f.header.marker ≡ fragment_marker
  pub versioned : f.header.version_number ≡ fragment_version_latest
  pub header_measured : f.header.header_size ≡ sizeof_header
  pub payload_measured : f.header.payload_size ≡ length f.fragment
  pub payload_bytes : IsBytes f.fragment
  pub total_fits : sizeof_header + length f.fragment < 2 ^ 32
