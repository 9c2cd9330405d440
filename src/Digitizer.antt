-- ===== src/Digitizer.antt =====
-- EventFormats/EventFormats/DigitizerDataFragment.hpp: the constructor, the validity test and the
-- getters that compute something. `fault` is a read beyond the end or a division by zero.
pub mod Reads
pub mod Decode
pub mod Valid
pub mod Print
mod Tests
use faser_common.Common.{
  ℕ, zero, suc, ◌+◌, ◌-◌, ◌*◌, ◌/◌, ◌%◌, ◌^◌, List, [], ◌∷◌, ◌++◌, Bool, true, false, not,
}
use faser_common.Common.{
  length, ltb, ◌==◌, if◌then◌else◌, bit_and, bit_or, Result, ok, throw, fault, ◌>>=◌, ◌>>◌,
  throw_if, Option, none, some,
}
use faser_common.Common.Bytes.{load}
use faser_common.Common.Words.{u32}
use faser_common.Common.OrderedMap.{find, insert}

-- `N_MAX_CHAN`
abbrev pub n_max_chan : ℕ
n_max_chan = 16

-- `GetBit`
abbrev pub get_bit : ℕ → ℕ → ℕ
get_bit word bit_location = bit_and (word / 2 ^ bit_location) 1

pub data DigitizerDataException : Type 0 where
  header_too_small size_mismatch not_divisible channel_not_in_map : DigitizerDataException

pub record DigitizerEvent : Type 0 where
  pub event_size : ℕ
  pub board_id : ℕ
  pub board_fail_flag : ℕ
  pub pattern_trig_options : ℕ
  pub channel_mask : ℕ
  pub event_counter : ℕ
  pub trigger_time_tag : ℕ
  pub n_samples : ℕ
  pub adc_counts : List (ℕ × List ℕ)

pub record DigitizerDataFragment : Type 0 where
  pub event : DigitizerEvent
  pub m_size : ℕ
  pub m_debug : Bool

-- The fields of the four words of the header, the samples still missing.
unfoldable pub decode_header : ℕ → ℕ → ℕ → ℕ → DigitizerEvent
decode_header d0 d1 d2 d3 = record {
  event_size = bit_and d0 0x0FFFFFFF;
  board_id = d1 / 2 ^ 27;
  board_fail_flag = get_bit d1 26;
  pattern_trig_options = bit_and d1 0x00FFFFFF / 2 ^ 8;
  channel_mask = bit_or (bit_and d1 0x000000FF) (bit_and d2 0xFF000000 / 2 ^ 16);
  event_counter = bit_and d2 0x00FFFFFF;
  trigger_time_tag = d3;
  n_samples = 0;
  adc_counts = [];
}

-- The number of enabled channels among `left` channels from `i_chan` on.
unfoldable pub count_active : ℕ → ℕ → ℕ → ℕ
count_active zero i_chan mask = 0
count_active (suc left) i_chan mask =
    let rest = count_active left (i_chan + 1) mask in
    if get_bit mask i_chan == 1 then suc rest else rest

-- The samples of one channel: two of each word, the lower half first, behind those that are there.
unfoldable pub read_samples : ℕ → ℕ → List ℕ → List ℕ → Result DigitizerDataException (List ℕ)
read_samples zero i_dat buf counts = ok counts
read_samples (suc left) i_dat buf counts = do
  ch_data ← load buf (4 * i_dat) 4
  read_samples left (i_dat + 1) buf
      (counts ++ (bit_and ch_data 0x0000FFFF ∷ (bit_and ch_data 0xFFFF0000 / 2 ^ 16) ∷ []))

-- The loop over the channels, `left` of them from `i_chan` on; the data of the next enabled one
-- start at word `start`, which never exceeds the number of words that were checked before.
unfoldable pub read_channels :
    ℕ
    → ℕ
    → ℕ
    → ℕ
    → ℕ
    → List ℕ
    → List (ℕ × List ℕ)
    → Result DigitizerDataException (List (ℕ × List ℕ))
unfolding read_samples
read_channels zero i_chan mask n_words start buf counts = ok counts
read_channels (suc left) i_chan mask n_words start buf counts = elim (get_bit mask i_chan == 0) [
  | true ↦ read_channels left (i_chan + 1) mask n_words start buf (insert i_chan [] counts)
  | false ↦ do
    samples ← read_samples n_words start buf []
    read_channels left (i_chan + 1) mask n_words (start + n_words) buf
        (insert i_chan samples counts)
]

-- The division of the data among `n` enabled channels: the words of each.
unfoldable pub words_per_channel : ℕ → ℕ → Result DigitizerDataException ℕ
words_per_channel event_size_no_header zero = fault
words_per_channel event_size_no_header (suc n) = do
  throw_if (not (event_size_no_header % suc n == 0)) not_divisible
  ok (event_size_no_header / suc n)

-- What follows the header in the constructor.
unfoldable pub decode_channels :
    DigitizerEvent → List ℕ → Result DigitizerDataException DigitizerEvent
decode_channels ev buf = do
  n_words ←
      words_per_channel (u32 (ev.event_size + 2 ^ 32 - 4))
        (count_active n_max_chan 0 ev.channel_mask)
  counts ← read_channels n_max_chan 0 ev.channel_mask n_words 4 buf []
  ok (record ev { n_samples = u32 (2 * n_words); adc_counts = counts })

-- The constructor.
unfoldable pub decode_digitizer : List ℕ → ℕ → Result DigitizerDataException DigitizerDataFragment
decode_digitizer buf size = do
  throw_if (ltb size 16) header_too_small
  d0 ← load buf 0 4
  d1 ← load buf 4 4
  d2 ← load buf 8 4
  d3 ← load buf 12 4
  let ev = decode_header d0 d1 d2 d3
  throw_if (not (u32 (ev.event_size * 4) == size)) size_mismatch
  event ← decode_channels ev buf
  ok (record { event = event; m_size = size; m_debug = false })

-- The getters that return a member.
abbrev pub event_size : DigitizerDataFragment → ℕ
event_size f = f.event.event_size

abbrev pub board_id : DigitizerDataFragment → ℕ
board_id f = f.event.board_id

abbrev pub board_fail_flag : DigitizerDataFragment → ℕ
board_fail_flag f = f.event.board_fail_flag

abbrev pub pattern_trig_options : DigitizerDataFragment → ℕ
pattern_trig_options f = f.event.pattern_trig_options

abbrev pub channel_mask : DigitizerDataFragment → ℕ
channel_mask f = f.event.channel_mask

abbrev pub event_counter : DigitizerDataFragment → ℕ
event_counter f = f.event.event_counter

abbrev pub trigger_time_tag : DigitizerDataFragment → ℕ
trigger_time_tag f = f.event.trigger_time_tag

abbrev pub n_samples : DigitizerDataFragment → ℕ
n_samples f = f.event.n_samples

abbrev pub adc_counts : DigitizerDataFragment → List (ℕ × List ℕ)
adc_counts f = f.event.adc_counts

abbrev pub size : DigitizerDataFragment → ℕ
size f = f.m_size

abbrev pub set_debug_on : Bool → DigitizerDataFragment → DigitizerDataFragment
set_debug_on debug f = record f { m_debug = debug }

-- `channel_adc_counts`
unfoldable pub channel_adc_counts :
    DigitizerDataFragment → ℕ → Result DigitizerDataException (List ℕ)
channel_adc_counts f channel = elim (find channel f.event.adc_counts) [
  | none ↦ throw channel_not_in_map
  | some counts ↦ ok counts
]

-- `channel_has_data`
abbrev pub channel_has_data : DigitizerDataFragment → ℕ → Bool
channel_has_data f channel = not (get_bit f.event.channel_mask channel == 0)

-- The loop of `valid`, with the flag as it stands.
unfoldable pub check_channels :
    ℕ → ℕ → DigitizerDataFragment → Bool → Result DigitizerDataException Bool
unfolding channel_adc_counts
check_channels zero i_chan f validity_flag = ok validity_flag
check_channels (suc left) i_chan f validity_flag = elim (channel_has_data f i_chan) [
  | false ↦ check_channels left (i_chan + 1) f validity_flag
  | true ↦ do
    counts ← channel_adc_counts f i_chan
    check_channels left (i_chan + 1) f
        (if length counts == f.event.n_samples then validity_flag else false)
]

unfoldable pub valid : DigitizerDataFragment → Result DigitizerDataException Bool
unfolding check_channels
valid f = check_channels n_max_chan 0 f true
