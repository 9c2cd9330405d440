-- ===== src/Bobr.antt =====
-- EventFormats/EventFormats/BOBRDataFragment.hpp: the constructor and the getters that compute
-- something. The texts of the machine modes are constructors here.
pub mod RoundTrip
pub mod Print
mod Tests
use faser_common.Common.{ℕ, ◌+◌, ◌<◌, ◌^◌, ◌≡◌, List, [], ◌∷◌, ◌++◌, Bool, true, false, not}
use faser_common.Common.{
  ◌==◌, bit_and, Option, none, some, Result, ok, throw, ◌>>=◌, ◌>>◌, throw_if,
}
use faser_common.Common.Bytes.{le_bytes, field, load, load_bytes}
use faser_common.Common.OrderedMap.{find}

abbrev pub bobr_header_v1 : ℕ
bobr_header_v1 = 0xB0B1

-- `sizeof(BOBREventV1)`
abbrev pub sizeof_event : ℕ
sizeof_event = 32

pub record BobrEvent : Type 0 where
  pub m_header : ℕ
  pub m_status : ℕ
  pub m_gpstime_seconds : ℕ
  pub m_gpstime_useconds : ℕ
  pub m_turncount : ℕ
  pub m_fillnumber : ℕ
  pub m_machinemode : ℕ
  pub m_beam_momentum : ℕ
  pub m_beam1_intensity : ℕ
  pub m_beam2_intensity : ℕ

-- The packed structure, as it is copied from the buffer.
unfoldable pub event_of_bytes : List ℕ → BobrEvent
event_of_bytes buf = record {
  m_header = field 0 2 buf;
  m_status = field 2 2 buf;
  m_gpstime_seconds = field 4 4 buf;
  m_gpstime_useconds = field 8 4 buf;
  m_turncount = field 12 4 buf;
  m_fillnumber = field 16 4 buf;
  m_machinemode = field 20 2 buf;
  m_beam_momentum = field 22 2 buf;
  m_beam1_intensity = field 24 4 buf;
  m_beam2_intensity = field 28 4 buf;
}

pub data BobrDataException : Type 0 where
  wrong_size unknown_version : BobrDataException

pub record BobrDataFragment : Type 0 where
  pub event : BobrEvent
  pub m_size : ℕ
  pub m_debug : Bool

-- The constructor.
unfoldable pub make_fragment : List ℕ → ℕ → Result BobrDataException BobrDataFragment
make_fragment buf size = do
  throw_if (not (size == sizeof_event)) wrong_size
  version ← load buf 0 2
  throw_if (not (version == bobr_header_v1)) unknown_version
  bytes ← load_bytes buf 0 size
  ok record { event = event_of_bytes bytes; m_size = size; m_debug = false }

-- The getters that return a member.
abbrev pub header : BobrDataFragment → ℕ
header f = f.event.m_header

abbrev pub status : BobrDataFragment → ℕ
status f = f.event.m_status

abbrev pub gpstime_seconds : BobrDataFragment → ℕ
gpstime_seconds f = f.event.m_gpstime_seconds

abbrev pub gpstime_useconds : BobrDataFragment → ℕ
gpstime_useconds f = f.event.m_gpstime_useconds

abbrev pub turncount : BobrDataFragment → ℕ
turncount f = f.event.m_turncount

abbrev pub fillnumber : BobrDataFragment → ℕ
fillnumber f = f.event.m_fillnumber

abbrev pub machinemode : BobrDataFragment → ℕ
machinemode f = f.event.m_machinemode

abbrev pub beam_momentum : BobrDataFragment → ℕ
beam_momentum f = f.event.m_beam_momentum

abbrev pub beam1_intensity : BobrDataFragment → ℕ
beam1_intensity f = f.event.m_beam1_intensity

abbrev pub beam2_intensity : BobrDataFragment → ℕ
beam2_intensity f = f.event.m_beam2_intensity

abbrev pub size : BobrDataFragment → ℕ
size f = f.m_size

-- `valid()` asks nothing.
abbrev pub valid : BobrDataFragment → Bool
valid f = true

abbrev pub set_debug_on : Bool → BobrDataFragment → BobrDataFragment
set_debug_on debug f = record f { m_debug = debug }

-- A bit of the status word.
abbrev status_bit : BobrDataFragment → ℕ → Bool
status_bit f mask = not (bit_and f.event.m_status mask == 0)

unfoldable pub clock_unlocked : BobrDataFragment → Bool
clock_unlocked f = status_bit f 1

unfoldable pub ttc_ready : BobrDataFragment → Bool
ttc_ready f = status_bit f (2 ^ 8)

unfoldable pub local_40mhz_present : BobrDataFragment → Bool
local_40mhz_present f = status_bit f (2 ^ 9)

unfoldable pub local_turnclock_present : BobrDataFragment → Bool
local_turnclock_present f = status_bit f (2 ^ 10)

unfoldable pub ttcb_available : BobrDataFragment → Bool
ttcb_available f = status_bit f (2 ^ 11)

unfoldable pub ttc_errors : BobrDataFragment → Bool
ttc_errors f = status_bit f (2 ^ 12)

-- The entries of `modeNames`, and the text for any other mode.
pub data ModeName : Type 0 where
  no_mode setup inj_prob inj_setup inj_physics prepare_ramp ramp flat_top squeeze adjust : ModeName
  stable_beam beam_dump rampdown recovery cycling no_beam unknown : ModeName

abbrev pub mode_names : List (ℕ × ModeName)
mode_names =
    (1, no_mode)
    ∷ (2, setup)
    ∷ (3, inj_prob)
    ∷ (4, inj_setup)
    ∷ (5, inj_physics)
    ∷ (6, prepare_ramp)
    ∷ (7, ramp)
    ∷ (8, flat_top)
    ∷ (9, squeeze)
    ∷ (10, adjust)
    ∷ (11, stable_beam)
    ∷ (13, beam_dump)
    ∷ (14, rampdown)
    ∷ (15, recovery)
    ∷ (19, cycling)
    ∷ (21, no_beam)
    ∷ []

unfoldable pub machinemode_txt : BobrDataFragment → ModeName
unfolding find
machinemode_txt f = elim (find f.event.m_machinemode mode_names) [
  | some name ↦ name
  | none ↦ unknown
]
