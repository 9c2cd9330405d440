-- ===== src/Tracker/SctEvent.antt =====
-- EventFormats/EventFormats/TrackerDataFragment.hpp and .icc: `SCTEvent`, the decoded data of one
-- module of the tracker.
pub mod Laws
use faser_common.Common.{ℕ, zero, suc, ◌+◌, List, [], ◌∷◌, ◌++◌, Bool, true, false, not, ◌&&◌}
use faser_common.Common.{◌==◌, if◌then◌else◌, length, bit_or, Option, none, some, Result, ok, throw}
use faser_common.Common.Words.{u8, u16}
use faser_common.Common.OrderedMap.{find}

pub data TrackerDataException : Type 0 where
  unknown_chip bits_used_too_large : TrackerDataException

pub record SctEvent : Type 0 where
  pub m_hits : List (List (ℕ × ℕ))
  pub m_errors : List (List ℕ)
  pub m_unknown_chips : List ℕ
  pub m_module_id : ℕ
  pub m_bcid : ℕ
  pub m_l1id : ℕ
  pub m_complete : Bool
  pub m_missing_data : Bool
  pub m_bcid_mismatch : Bool
  pub m_has_error : Bool
  pub m_chip_is_valid : Bool

-- `m_chipIDMap`, which the constructor fills and nothing changes.
abbrev pub chip_id_map : List (ℕ × ℕ)
chip_id_map =
    (0x20, 0)
    ∷ (0x21, 1)
    ∷ (0x22, 2)
    ∷ (0x23, 3)
    ∷ (0x24, 4)
    ∷ (0x25, 5)
    ∷ (0x28, 6)
    ∷ (0x29, 7)
    ∷ (0x2a, 8)
    ∷ (0x2b, 9)
    ∷ (0x2c, 10)
    ∷ (0x2d, 11)
    ∷ []

-- Twelve empty vectors.
abbrev pub twelve {ℓ} : {A : Type ℓ} → List (List A)
twelve = [] ∷ [] ∷ [] ∷ [] ∷ [] ∷ [] ∷ [] ∷ [] ∷ [] ∷ [] ∷ [] ∷ [] ∷ []

unfoldable pub make_sct_event : ℕ → ℕ → ℕ → SctEvent
make_sct_event module_id l1id bcid = record {
  m_hits = twelve;
  m_errors = twelve;
  m_unknown_chips = [];
  m_module_id = u8 module_id;
  m_bcid = u16 bcid;
  m_l1id = u16 l1id;
  m_complete = true;
  m_missing_data = false;
  m_bcid_mismatch = false;
  m_has_error = false;
  m_chip_is_valid = true;
}

-- `AddHeader`
unfoldable pub add_header : SctEvent → ℕ → ℕ → SctEvent
add_header ev l1id bcid =
    if ev.m_l1id == l1id && ev.m_bcid == bcid
    then record ev { m_complete = true }
    else let ev' : SctEvent =
        if not (ev.m_l1id == l1id)
        then record ev { m_complete = false; m_missing_data = true }
        else ev in
      if not (ev.m_bcid == bcid) then record ev' { m_bcid_mismatch = true } else ev'

-- `v[i].push_back(x)`; the indices of the map lie within the twelve vectors.
unfoldable pub push_at {ℓ} : {A : Type ℓ} → ℕ → A → List (List A) → List (List A)
push_at i x [] = []
push_at zero x (v ∷ vs) = (v ++ (x ∷ [])) ∷ vs
push_at (suc i) x (v ∷ vs) = v ∷ push_at i x vs

-- `v.back().push_back(x)`
unfoldable pub push_back_last {ℓ} : {A : Type ℓ} → A → List (List A) → List (List A)
push_back_last x [] = []
push_back_last x (v ∷ []) = (v ++ (x ∷ [])) ∷ []
push_back_last x (v ∷ w ∷ vs) = v ∷ push_back_last x (w ∷ vs)

-- The chip's address with its constant two highest bits.
abbrev pub chip_address : ℕ → ℕ
chip_address chip = bit_or chip 0x20

-- `AddError`: the object, and whether an exception was thrown.
unfoldable pub add_error : SctEvent → ℕ → ℕ → SctEvent × Result TrackerDataException (Unit {0})
unfolding push_back_last
add_error ev chip err = elim (find (chip_address chip) chip_id_map) [
  | none ↦ (
    record ev { m_has_error = true; m_errors = push_back_last 0xff ev.m_errors },
    throw unknown_chip,
  )
  | some i ↦ (record ev { m_has_error = true; m_errors = push_at i (u8 err) ev.m_errors }, ok tt)
]

-- `AddHit`
unfoldable pub add_hit : SctEvent → ℕ → ℕ → ℕ → SctEvent × Result TrackerDataException (Unit {0})
add_hit ev chip strip pattern = elim (find (chip_address chip) chip_id_map) [
  | none ↦ (record ev { m_complete = false; m_missing_data = true }, throw unknown_chip)
  | some i ↦ (record ev { m_hits = push_at i (u8 strip, u8 pattern) ev.m_hits }, ok tt)
]

-- `AddUnknownChip`
unfoldable pub add_unknown_chip : SctEvent → ℕ → SctEvent
add_unknown_chip ev chip = record ev { m_unknown_chips = ev.m_unknown_chips ++ (u8 chip ∷ []) }

-- `ChipIsValid`
unfoldable pub chip_is_valid : SctEvent → ℕ → Bool × SctEvent
chip_is_valid ev chip = elim (find (chip_address chip) chip_id_map) [
  | none ↦ (false, record ev { m_complete = false; m_missing_data = true; m_chip_is_valid = false })
  | some i ↦ (true, record ev { m_chip_is_valid = true })
]

-- `v[i]`, again within the twelve vectors.
abbrev pub vector_at {ℓ} : {A : Type ℓ} → ℕ → List (List A) → List A
vector_at i [] = []
vector_at zero (v ∷ vs) = v
vector_at (suc i) (v ∷ vs) = vector_at i vs

-- `v.back()`
abbrev pub last_vector {ℓ} : {A : Type ℓ} → List (List A) → List A
last_vector [] = []
last_vector (v ∷ []) = v
last_vector (v ∷ w ∷ vs) = last_vector (w ∷ vs)

-- `GetNHits()`
unfoldable pub get_n_hits_all {ℓ} : {A : Type ℓ} → List (List A) → ℕ
get_n_hits_all [] = 0
get_n_hits_all (chip ∷ chips) = length chip + get_n_hits_all chips

-- `GetNHits(chip)`
unfoldable pub get_n_hits : SctEvent → ℕ → Result TrackerDataException ℕ
get_n_hits ev chip = elim (find chip chip_id_map) [
  | none ↦ if chip == 0 then ok (length (last_vector ev.m_hits)) else throw unknown_chip
  | some i ↦ ok (length (vector_at i ev.m_hits))
]

-- `GetHits(chip)`
unfoldable pub get_hits : SctEvent → ℕ → Result TrackerDataException (List (ℕ × ℕ))
get_hits ev chip = elim (find chip chip_id_map) [
  | none ↦ throw unknown_chip
  | some i ↦ ok (vector_at i ev.m_hits)
]

-- `GetErrors(chip)`
unfoldable pub get_errors : SctEvent → ℕ → Result TrackerDataException (List ℕ)
get_errors ev chip = elim (find chip chip_id_map) [
  | none ↦ throw unknown_chip
  | some i ↦ ok (vector_at i ev.m_errors)
]
