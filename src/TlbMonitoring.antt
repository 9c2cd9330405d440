-- ===== src/TlbMonitoring.antt =====
-- EventFormats/EventFormats/TLBMonitoringFragment.hpp: the constructor, the tests and the getters.
pub mod Access
pub mod Frames
pub mod Valid
pub mod Make
pub mod Print
mod Tests
use faser_common.Common.{
  ℕ, zero, suc, ◌+◌, ◌-◌, ◌*◌, ◌/◌, ◌^◌, List, [], ◌∷◌, ◌++◌, Bool, true, false, not, ◌&&◌, ◌||◌,
}
use faser_common.Common.{
  length, ltb, leb, ◌==◌, if◌then◌else◌, bit_and, bit_or, min, drop, Result, ok, throw, fault,
  ◌>>=◌,
}
use faser_common.Common.Bytes.{field, load, load_bytes}
use faser_common.Common.Words.{words, word_bytes}
use faser_common.Checksum.{return_fletcher_checksum}

abbrev pub monitoring_header_v1 : ℕ
monitoring_header_v1 = 0xFEAD0050

abbrev pub monitoring_header_v2 : ℕ
monitoring_header_v2 = 0xFEAD0005

abbrev pub mask_data : ℕ
mask_data = 0xFFFFFF

abbrev pub mask_first_12b : ℕ
mask_first_12b = 0xFFF

abbrev pub mask_second_12b : ℕ
mask_second_12b = 0xFFF000

abbrev pub mask_frameid_32b : ℕ
mask_frameid_32b = 0xF0000000

abbrev pub mask_frameid_trigline : ℕ
mask_frameid_trigline = 0xFF000000

-- The frame identifiers, `FID_…`.
pub data FrameId : Type 0 where
  fid_event_id fid_bc_id fid_tbp fid_tap fid_tav fid_tap_ored fid_tav_ored fid_crc : FrameId

abbrev pub frame_id : FrameId → ℕ
frame_id fid_event_id = 0x10000000
frame_id fid_bc_id = 0x30000000
frame_id fid_tbp = 0x40000000
frame_id fid_tap = 0x50000000
frame_id fid_tav = 0x60000000
frame_id fid_tap_ored = 0xF0000000
frame_id fid_tav_ored = 0xF0000000
frame_id fid_crc = 0xD0000000

abbrev pub max_trig_line : ℕ
max_trig_line = 6

abbrev pub mondata_v2_old_size : ℕ
mondata_v2_old_size = 112

-- `sizeof(TLBMonEventV1)` and `sizeof(TLBMonEvent)`
abbrev pub sizeof_event_v1 : ℕ
sizeof_event_v1 = 104

abbrev pub sizeof_event : ℕ
sizeof_event = 120

-- `TLBMonEvent` with its `TLBMonEventV1`; the arrays have six elements.
pub record TlbMonEvent : Type 0 where
  pub m_header : ℕ
  pub m_event_id : ℕ
  pub m_orbit_id : ℕ
  pub m_bc_id : ℕ
  pub m_tbp : List ℕ
  pub m_tap : List ℕ
  pub m_tav : List ℕ
  pub m_deadtime_veto_counter : ℕ
  pub m_busy_veto_counter : ℕ
  pub m_rate_limiter_veto_counter : ℕ
  pub m_bcr_veto_counter : ℕ
  pub m_digitizer_busy_counter : ℕ
  pub m_tap_ored : ℕ
  pub m_tav_ored : ℕ
  pub m_checksum : ℕ

pub record TlbMonitoringFragment : Type 0 where
  pub event : TlbMonEvent
  pub m_size : ℕ
  pub m_version : ℕ
  pub m_debug : Bool
  pub m_crc_calculated : ℕ
  pub m_verified : Bool
  pub m_valid : Bool

pub data TlbMonException : Type 0 where
  index_out_of_range data_not_valid : TlbMonException

-- The bytes of the structure as it is preset; the checksum is `junk` still.
abbrev pub initial_image : ℕ → List ℕ
initial_image junk = word_bytes (
    0x0 ∷ 0xffffff ∷ 0xffffffff ∷ 0xffff ∷ 0 ∷ 0 ∷ 0 ∷ 0 ∷ 0 ∷ 0 ∷ 0 ∷ 0 ∷ 0 ∷ 0 ∷ 0 ∷ 0 ∷ 0 ∷ 0 ∷ 0
    ∷ 0 ∷ 0 ∷ 0 ∷ 0xffffff ∷ 0xffffff ∷ 0xffffff ∷ 0xffffff ∷ 0xffffff ∷ 0xf0ffffff ∷ 0xf0ffffff
    ∷ junk ∷ [])

unfoldable pub event_of_bytes : List ℕ → TlbMonEvent
event_of_bytes image = record {
  m_header = field 0 4 image;
  m_event_id = field 4 4 image;
  m_orbit_id = field 8 4 image;
  m_bc_id = field 12 4 image;
  m_tbp = words 6 (drop 16 image);
  m_tap = words 6 (drop 40 image);
  m_tav = words 6 (drop 64 image);
  m_deadtime_veto_counter = field 88 4 image;
  m_busy_veto_counter = field 92 4 image;
  m_rate_limiter_veto_counter = field 96 4 image;
  m_bcr_veto_counter = field 100 4 image;
  m_digitizer_busy_counter = field 104 4 image;
  m_tap_ored = field 108 4 image;
  m_tav_ored = field 112 4 image;
  m_checksum = field 116 4 image;
}

abbrev pub version_of : ℕ → ℕ
version_of d0 =
    if d0 == monitoring_header_v1 then 1 else if d0 == monitoring_header_v2 then 2 else 0xff

-- `memcpy` of `n` bytes over the structure.
unfoldable pub copy_over : ℕ → List ℕ → List ℕ → Result TlbMonException (List ℕ)
copy_over n buf image = do bytes ← load_bytes buf 0 n; ok (bytes ++ drop n image)

-- The copy for each version; that of version 2 leaves out the last word, and its length wraps if
-- there is none.
unfoldable pub fill_image : ℕ → List ℕ → ℕ → List ℕ → Result TlbMonException (List ℕ)
unfolding copy_over
fill_image d0 buf size image =
    if d0 == monitoring_header_v1
    then copy_over (min size sizeof_event_v1) buf image
    else if d0 == monitoring_header_v2
    then (if ltb (min size sizeof_event) 4
        then fault
        else copy_over (min size sizeof_event - 4) buf image)
    else ok image

-- The last word of the buffer; its index wraps if there is none.
unfoldable pub last_word : List ℕ → ℕ → Result TlbMonException ℕ
last_word buf size = if size / 4 == 0 then fault else load buf (4 * (size / 4 - 1)) 4

-- The constructor; `junk` and `stale` are the members that it does not set.
unfoldable pub make_fragment : ℕ → Bool → List ℕ → ℕ → Result TlbMonException TlbMonitoringFragment
make_fragment junk stale buf size = do
  d0 ← load buf 0 4
  image ← fill_image d0 buf size (initial_image junk)
  checksum ← last_word buf size
  crc ← return_fletcher_checksum buf size
  ok record {
    event = record (event_of_bytes image) { m_checksum = checksum };
    m_size = size;
    m_version = version_of d0;
    m_debug = false;
    m_crc_calculated = crc;
    m_verified = false;
    m_valid = stale;
  }

-- `*(array+i)`
abbrev pub element : List ℕ → ℕ → ℕ
element [] i = 0
element (x ∷ xs) zero = x
element (x ∷ xs) (suc i) = element xs i

-- The identifier of trigger line `fid_cnt`, in the high byte of its word.
abbrev pub line_check : FrameId → ℕ → ℕ → Bool
line_check id fid_cnt word =
    bit_and word mask_frameid_trigline == bit_or (frame_id id) (fid_cnt * 2 ^ 24)

-- The loop over the trigger lines, `left` of them from `i` on.
unfoldable pub lines_check : ℕ → ℕ → TlbMonEvent → Bool
lines_check zero i event = true
lines_check (suc left) i event =
    line_check fid_tbp i (element event.m_tbp i)
    && (line_check fid_tap i (element event.m_tap i)
        && (line_check fid_tav i (element event.m_tav i) && lines_check left (i + 1) event))

abbrev pub word_check : FrameId → ℕ → Bool
word_check id word = bit_and word mask_frameid_32b == frame_id id

unfoldable pub frame_check : TlbMonitoringFragment → Bool
unfolding lines_check
frame_check f =
    ltb f.m_version 2
    || (word_check fid_event_id f.event.m_event_id
        && (word_check fid_bc_id f.event.m_bc_id
            && (lines_check max_trig_line 0 f.event
                && (word_check fid_tap_ored f.event.m_tap_ored
                    && (word_check fid_tav_ored f.event.m_tav_ored
                        && word_check fid_crc f.event.m_checksum)))))
