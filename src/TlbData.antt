-- ===== src/TlbData.antt =====
-- EventFormats/EventFormats/TLBDataFragment.hpp: the trigger logic board's data fragment.
-- Words are little-endian. A getter that may verify the fragment returns the changed object too.
pub mod Make
pub mod Valid
pub mod Getters
pub mod Detect
pub mod Print
mod Tests
use faser_common.Common.{
  ℕ, ◌+◌, ◌*◌, ◌/◌, ◌^◌, ◌≤◌, ◌<◌, ◌≡◌, List, [], ◌∷◌, ◌++◌, drop, min, bit_and, bit_or,
}
use faser_common.Common.{
  Bool, true, false, not, ◌&&◌, ◌||◌, ltb, ◌==◌, if◌then◌else◌, Result, ok, throw, ◌>>=◌,
}
use faser_common.Common.Bytes.{le_bytes, field, load, load_bytes}
use faser_common.Common.Words.{u8}
use faser_common.Checksum.{return_fletcher_checksum}

abbrev pub trigger_header_v1 : ℕ
trigger_header_v1 = 0xFEAD000A

abbrev pub trigger_header_v2 : ℕ
trigger_header_v2 = 0xFEAD00A0

abbrev pub mask_data : ℕ
mask_data = 0xFFFFFF

abbrev pub mask_first_12b : ℕ
mask_first_12b = 0xFFF

abbrev pub mask_second_12b : ℕ
mask_second_12b = 0xFFF000

abbrev pub mask_tbp : ℕ
mask_tbp = 0x3F

abbrev pub mask_tap_v1 : ℕ
mask_tap_v1 = 0x3F00

abbrev pub mask_tap_v2 : ℕ
mask_tap_v2 = 0xFC0

abbrev pub mask_frameid_32b : ℕ
mask_frameid_32b = 0xF0000000

abbrev pub mask_frameid_16b : ℕ
mask_frameid_16b = 0xF000

abbrev pub fid_event_id : ℕ
fid_event_id = 0x10000000

abbrev pub fid_bc_id : ℕ
fid_bc_id = 0x30000000

abbrev pub fid_tbptap : ℕ
fid_tbptap = 0xC000

abbrev pub fid_crc : ℕ
fid_crc = 0xE0000000

-- `sizeof(TLBEventV1)` and `sizeof(TLBEvent)`
abbrev pub sizeof_event_v1 : ℕ
sizeof_event_v1 = 20

abbrev pub sizeof_event : ℕ
sizeof_event = 24

-- The packed structure `TLBEvent`, with the members of its `v1` in front.
pub record TlbEvent : Type 0 where
  pub m_header : ℕ
  pub m_event_id : ℕ
  pub m_orbit_id : ℕ
  pub m_bc_id : ℕ
  pub m_input_bits_next_clk : ℕ
  pub m_input_bits : ℕ
  pub m_tbptap : ℕ
  pub m_checksum : ℕ

pub record TlbDataFragment : Type 0 where
  pub event : TlbEvent
  pub m_size : ℕ
  pub m_version : ℕ
  pub m_debug : Bool
  pub m_crc_calculated : ℕ
  pub m_verified : Bool
  pub m_valid : Bool

pub data TlbDataException : Type 0 where
  data_not_valid : TlbDataException

-- The structure's bytes before the copy; `m_checksum` is not set.
abbrev pub initial_image : ℕ → List ℕ
initial_image junk =
    le_bytes 4 0x0
    ++ (le_bytes 4 0xffffff
        ++ (le_bytes 4 0xffffffff
            ++ (le_bytes 4 0xffff ++ (0 ∷ 0 ∷ (le_bytes 2 0 ++ le_bytes 4 junk)))))

unfoldable pub event_of_bytes : List ℕ → TlbEvent
event_of_bytes image = record {
  m_header = field 0 4 image;
  m_event_id = field 4 4 image;
  m_orbit_id = field 8 4 image;
  m_bc_id = field 12 4 image;
  m_input_bits_next_clk = field 16 1 image;
  m_input_bits = field 17 1 image;
  m_tbptap = field 18 2 image;
  m_checksum = field 20 4 image;
}

abbrev pub version_of : ℕ → ℕ
version_of first =
    if first == trigger_header_v1 then 0x1 else if first == trigger_header_v2 then 0x2 else 0xff

-- The constructor; `junk` and `stale` are what `m_checksum` and `m_valid` hold before they are set.
unfoldable pub make_fragment : ℕ → Bool → List ℕ → ℕ → Result TlbDataException TlbDataFragment
make_fragment junk stale buf size = do
  bytes ← load_bytes buf 0 (min size sizeof_event)
  first ← load buf 0 4
  crc ← return_fletcher_checksum buf size
  ok (record {
    event = event_of_bytes (bytes ++ drop (min size sizeof_event) (initial_image junk));
    m_size = size;
    m_version = version_of first;
    m_debug = false;
    m_crc_calculated = crc;
    m_verified = false;
    m_valid = stale;
  })

unfoldable pub checksum : TlbDataFragment → ℕ
checksum f = bit_and f.event.m_checksum mask_data

unfoldable pub frame_check : TlbDataFragment → Bool
frame_check f =
    ltb f.m_version 0x2
    || ((bit_and f.event.m_event_id mask_frameid_32b == fid_event_id)
        && ((bit_and f.event.m_bc_id mask_frameid_32b == fid_bc_id)
            && ((bit_and f.event.m_tbptap mask_frameid_16b == fid_tbptap)
                && (bit_and f.event.m_checksum mask_frameid_32b == fid_crc))))

-- The value that `valid` gives `m_valid`.
unfoldable pub verify : TlbDataFragment → Bool
unfolding checksum frame_check
verify f =
    not (f.m_version == 0xff)
    && (if ltb 0x1 f.m_version
        then (f.m_crc_calculated == checksum f) && (frame_check f && (f.m_size == sizeof_event))
        else f.m_size == sizeof_event_v1)

-- `valid()`, which keeps its answer.
unfoldable pub valid : TlbDataFragment → Bool × TlbDataFragment
valid f =
    if f.m_verified
    then (f.m_valid, f)
    else (verify f, record f { m_verified = true; m_valid = verify f })

unfoldable pub set_debug_on : Bool → TlbDataFragment → TlbDataFragment
set_debug_on debug f = record f { m_debug = debug }

-- `if ( valid() || m_debug ) return …; THROW(…)`
unfoldable pub if_valid : TlbDataFragment → ℕ → Result TlbDataException ℕ × TlbDataFragment
unfolding valid
if_valid f value =
    let (v, f') = valid f in (if v || f'.m_debug then ok value else throw data_not_valid, f')

abbrev pub event_id : TlbDataFragment → ℕ
event_id f = bit_and f.event.m_event_id mask_data

abbrev pub bc_id : TlbDataFragment → ℕ
bc_id f = bit_and f.event.m_bc_id mask_first_12b

abbrev pub orbits_lost_counter : TlbDataFragment → ℕ
orbits_lost_counter f = bit_and f.event.m_bc_id mask_second_12b / 2 ^ 12

abbrev pub orbit_id : TlbDataFragment → Result TlbDataException ℕ × TlbDataFragment
orbit_id f = if_valid f f.event.m_orbit_id

abbrev pub tap : TlbDataFragment → Result TlbDataException ℕ × TlbDataFragment
tap f = if_valid f (
    if ltb f.m_version 0x2
    then u8 (bit_and f.event.m_tbptap mask_tap_v1 / 2 ^ 8)
    else u8 (bit_and f.event.m_tbptap mask_tap_v2 / 2 ^ 6))

abbrev pub tbp : TlbDataFragment → Result TlbDataException ℕ × TlbDataFragment
tbp f = if_valid f (u8 (bit_and f.event.m_tbptap mask_tbp))

abbrev pub input_bits : TlbDataFragment → Result TlbDataException ℕ × TlbDataFragment
input_bits f = if_valid f f.event.m_input_bits

abbrev pub input_bits_next_clk : TlbDataFragment → Result TlbDataException ℕ × TlbDataFragment
input_bits_next_clk f = if_valid f f.event.m_input_bits_next_clk

unfoldable pub has_checksum_error : TlbDataFragment → Bool
unfolding checksum
has_checksum_error f = if ltb f.m_version 0x2 then false else not (f.m_crc_calculated == checksum f)

unfoldable pub has_frameid_error : TlbDataFragment → Bool
unfolding frame_check
has_frameid_error f = not (frame_check f)
