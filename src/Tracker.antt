-- ===== src/Tracker.antt =====
-- EventFormats/EventFormats/TrackerDataFragment.icc: the loop of the constructor of
-- TrackerDataFragment over the frames of a readout board, and `valid`.
pub mod SctEvent
pub mod Bitstream
pub mod Frames
pub mod Modules
pub mod Decode
pub mod Readout
pub mod Lost
mod Tests
use faser_common.Common.{
  ℕ, suc, ◌+◌, ◌*◌, ◌/◌, ◌%◌, ◌^◌, List, [], ◌∷◌, ◌++◌, Bool, true, false, not, ◌&&◌, ◌||◌,
}
use faser_common.Common.{
  ◌==◌, if◌then◌else◌, length, ltb, bit_and, bit_or, Option, none, some, Result, ok, throw, fault,
  ◌>>=◌,
}
use faser_common.Common.Words.{words, u8}
use faser_common.Common.OrderedMap.{find, insert}
use faser_common.Checksum.{return_fletcher_checksum}

abbrev pub trb_header : ℕ
trb_header = 0x00000000

abbrev pub trb_end : ℕ
trb_end = 0x07000eee

abbrev pub mask_wordtype : ℕ
mask_wordtype = 0xC0000000

-- The types of words and of readout board data.
abbrev pub wordtype_trbdata : ℕ
wordtype_trbdata = 0x40000000

abbrev pub wordtype_moduledata_led : ℕ
wordtype_moduledata_led = 0x80000000

abbrev pub wordtype_moduledata_ledx : ℕ
wordtype_moduledata_ledx = 0xC0000000

abbrev pub mask_trbdatatype : ℕ
mask_trbdatatype = 0x07000000

pub data TrbDataType : Type 0 where
  type_eventid type_bcid type_trberror type_moduleerror_led type_moduleerror_ledx type_crc :
      TrbDataType

abbrev pub trb_data_type : TrbDataType → ℕ
trb_data_type type_eventid = 0x00000000
trb_data_type type_bcid = 0x00000000
trb_data_type type_trberror = 0x01000000
trb_data_type type_moduleerror_led = 0x02000000
trb_data_type type_moduleerror_ledx = 0x03000000
trb_data_type type_crc = 0x01000000

-- `TRBEvent`; the map's keys, pairs of bytes in the order of pairs, are the numbers that
-- `module_key` makes of them. Left out are the modules' decoded data, and the fragment's `m_size`,
-- which only `size()` reads.
pub record TrbEvent : Type 0 where
  pub m_event_id : ℕ
  pub m_bc_id : ℕ
  pub m_has_trb_error : Bool
  pub m_event_id_missing : Bool
  pub m_bc_id_missing : Bool
  pub m_crc_missing : Bool
  pub m_frame_counter_invalid : Bool
  pub m_unrecognized_frames : Bool
  pub m_trb_error_id : ℕ
  pub m_crc : ℕ
  pub m_crc_calculated : ℕ
  pub m_module_error_ids : List ℕ
  pub m_mod_db : List (ℕ × List ℕ)

abbrev pub module_key : ℕ → ℕ → ℕ
module_key module_id channel = module_id * 2 ^ 8 + channel

-- The object before the loop; the checksum of the data is `junk` still.
abbrev pub fresh_event : ℕ → ℕ → TrbEvent
fresh_event junk crc = record {
  m_event_id = 0xffffff;
  m_bc_id = 0xffff;
  m_has_trb_error = false;
  m_event_id_missing = true;
  m_bc_id_missing = true;
  m_crc_missing = true;
  m_frame_counter_invalid = false;
  m_unrecognized_frames = false;
  m_trb_error_id = 0;
  m_crc = junk;
  m_crc_calculated = crc;
  m_module_error_ids = [];
  m_mod_db = [];
}

abbrev pub frame_counter : ℕ → ℕ
frame_counter w = bit_and w 0x38000000 / 2 ^ 27

abbrev pub word_type : ℕ → ℕ
word_type w = bit_and w mask_wordtype

abbrev pub data_type : ℕ → ℕ
data_type w = bit_and w mask_trbdatatype

-- A header or trailer word: the event after it, and whether the loop goes on.
unfoldable pub header_word : TrbEvent → ℕ → TrbEvent × Bool
header_word ev w =
    if data_type w == trb_data_type type_eventid && ev.m_event_id_missing
    then (record ev { m_event_id = bit_and w 0xFFFFFF; m_event_id_missing = false }, true)
    else if w == trb_end
    then (ev, false)
    else if data_type w == trb_data_type type_crc && ev.m_crc_missing
    then (record ev { m_crc = bit_and w 0xFFFFFF; m_crc_missing = false }, false)
    else (record ev { m_unrecognized_frames = true }, false)

-- The byte that reports an error of a module.
abbrev pub module_error : ℕ → ℕ
module_error w =
    let module_id = bit_and w 0x00700000 / 2 ^ 20 in
    let channel = bit_and w 0x01000000 / 2 ^ 24 in
    u8 (bit_or (bit_or (channel * 2 ^ 7) (module_id * 2 ^ 4)) (bit_and w 0xF))

-- A word of the readout board.
unfoldable pub trb_data_word : TrbEvent → ℕ → TrbEvent
trb_data_word ev w =
    if data_type w == trb_data_type type_bcid
    then (if ev.m_bc_id_missing
        then record ev { m_bc_id = bit_and w 0xFFF; m_bc_id_missing = false }
        else ev)
    else if data_type w == trb_data_type type_trberror
    then record ev { m_trb_error_id = bit_and w 0xF; m_has_trb_error = true }
    else if data_type w == trb_data_type type_moduleerror_led
        || data_type w == trb_data_type type_moduleerror_ledx
    then record ev { m_module_error_ids = ev.m_module_error_ids ++ (module_error w ∷ []) }
    else ev

-- `m_modDB[key].push_back(value)`
unfoldable pub push_module : ℕ → ℕ → List (ℕ × List ℕ) → List (ℕ × List ℕ)
push_module key value db = elim (find key db) [
  | none ↦ insert key (value ∷ []) db
  | some old ↦ insert key (old ++ (value ∷ [])) db
]

-- A word of a module.
unfoldable pub module_data_word : TrbEvent → ℕ → TrbEvent
module_data_word ev w =
    let channel = u8 (bit_and w 0x40000000 / 2 ^ 30) in
    let module_id = u8 (bit_and w 0x07000000 / 2 ^ 24) in
    record ev {
      m_mod_db = push_module (module_key module_id channel) (bit_and w 0xFFFFFF) ev.m_mod_db;
    }

-- The body of the loop, behind the test of the frame counter.
unfoldable pub frame_word : TrbEvent → ℕ → TrbEvent × Bool
frame_word ev w =
    if word_type w == trb_header
    then header_word ev w
    else let ev' = if word_type w == wordtype_trbdata then trb_data_word ev w else ev in
      (
        if word_type w == wordtype_moduledata_led || word_type w == wordtype_moduledata_ledx
            then module_data_word ev' w
            else ev',
        true,
      )

-- The loop; `later` says that it is not the first word, whose counter is not tested.
unfoldable pub frame_loop : List ℕ → Bool → ℕ → TrbEvent → TrbEvent
frame_loop [] later next ev = ev
frame_loop (w ∷ ws) later next ev =
    elim (later && (not (w == trb_end) && not (frame_counter w == next))) [
      | true ↦ record ev { m_frame_counter_invalid = true }
      | false ↦ elim (frame_word ev w).1 [
        | true ↦ frame_loop ws true ((frame_counter w + 1) % 8) (frame_word ev w).0
        | false ↦ (frame_word ev w).0
      ]
    ]

-- The constructor, without `DecodeModuleData`.
unfoldable pub decode_frames {ℓ} : {E : Type ℓ} → ℕ → List ℕ → ℕ → Result E TrbEvent
decode_frames junk buf size = do
  crc ← return_fletcher_checksum buf size
  ok (frame_loop (words (size / 4) buf) false 0xf (fresh_event junk crc))

abbrev pub has_module_error : TrbEvent → Bool
has_module_error ev = ltb 0 (length ev.m_module_error_ids)

-- `valid`
unfoldable pub valid : TrbEvent → Bool
valid ev =
    if ev.m_event_id_missing
    then false
    else if ev.m_bc_id_missing
    then false
    else if ev.m_crc_missing
    then false
    else if not (ev.m_crc == ev.m_crc_calculated)
    then false
    else if ev.m_has_trb_error
    then false
    else if has_module_error ev
    then false
    else if ev.m_frame_counter_invalid
    then false
    else not ev.m_unrecognized_frames
