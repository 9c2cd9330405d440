-- ===== src/Tracker/Decode.antt =====
-- EventFormats/EventFormats/TrackerDataFragment.icc: `DecodeModuleData`, which decodes the words of
-- each side of each module as a stream of bits. What it prints is left out.
pub mod Packets
pub mod Loops
pub mod Rounds
pub mod Progress
pub mod Total
pub mod Whole
pub mod Hits
pub mod ChipHits
pub mod HitPacket
pub mod Layout
pub mod Recognised
pub mod Encoded
pub mod Sides
pub mod Module
pub mod Fragment
mod Tests
use faser_common.Common.{
  ℕ, zero, suc, ◌+◌, ◌-◌, ◌*◌, ◌/◌, ◌^◌, List, [], ◌∷◌, Bool, true, false, not, ◌&&◌,
}
use faser_common.Common.{
  ◌==◌, if◌then◌else◌, length, bit_and, bit_or, Option, none, some, Result, ok, throw, fault,
}
use faser_common.Tracker.{module_key, TrbEvent, decode_frames}
use faser_common.Tracker.Modules.{words_under}
use faser_common.Tracker.Bitstream.{
  Bitstream, make_bitstream, remove_bits, bits_available, get_word32,
}
use faser_common.Tracker.SctEvent.{
  SctEvent, TrackerDataException, make_sct_event, add_hit, add_error, chip_is_valid,
}

-- How a part of the decoding ends. `overrun` is a read out of bounds, `null_pointer` a member of an
-- object that is not there, and `no_fuel` no end of the program, but of the fuel.
pub data Decoded {ℓ} (A : Type ℓ) : Type ℓ where
  returns : A → Decoded A
  throws : TrackerDataException → Decoded A
  overrun null_pointer no_fuel : Decoded A

infix 30 ◌>>=◌
abbrev pub ◌>>=◌ {ℓ κ} : {A : Type ℓ} {B : Type κ} → Decoded A → (A → Decoded B) → Decoded B
returns x >>= f = f x
throws e >>= f = throws e
overrun >>= f = overrun
null_pointer >>= f = null_pointer
no_fuel >>= f = no_fuel

-- `(word & MASK) == TAG` for each packet.
abbrev pub is_header : ℕ → Bool
is_header w = bit_and w 0xFC002000 == 0xE8002000

abbrev pub is_error : ℕ → Bool
is_error w = bit_and w 0xE0200000 == 0x00200000

abbrev pub is_config : ℕ → Bool
is_config w = bit_and w 0xE1C02010 == 0x1C02010

abbrev pub is_data : ℕ → Bool
is_data w = bit_and w 0xC0000000 == 0x40000000

abbrev pub is_nodata : ℕ → Bool
is_nodata w = bit_and w 0xE0000000 == 0x20000000

abbrev pub is_trailer : ℕ → Bool
is_trailer w = bit_and w 0xFFFF0000 == 0x80000000

abbrev pub has_leading_bit : ℕ → Bool
has_leading_bit w = bit_and w 0x80000000 == 0x80000000

-- The word in which the header is looked for; `other` is the first word of the other side.
unfoldable pub header_word : Bool → ℕ → ℕ → ℕ → ℕ
header_word false led word32 other = word32
header_word true led word32 other =
    let here = if not (is_header word32) then other else word32 in
    if led == 0 && not (bit_and here 0xFFFFE000 == bit_and other 0xFFFFE000) then other else here

-- A call that changes the object, or throws.
abbrev pub decoded_by : SctEvent × Result TrackerDataException (Unit {0}) → Decoded SctEvent
decoded_by (ev, ok u) = returns ev
decoded_by (ev, throw e) = throws e
decoded_by (ev, fault) = overrun

-- `if (sctEvent->ChipIsValid(chip)) sctEvent->AddError(chip, err)`, and so for `AddHit`.
unfoldable pub error_of_chip : SctEvent → ℕ → ℕ → Decoded SctEvent
error_of_chip ev chip err = elim (chip_is_valid ev chip).0 [
  | false ↦ returns (chip_is_valid ev chip).1
  | true ↦ decoded_by (add_error (chip_is_valid ev chip).1 chip err)
]

unfoldable pub hit_of_chip : SctEvent → ℕ → ℕ → ℕ → Decoded SctEvent
hit_of_chip ev chip strip pattern = elim (chip_is_valid ev chip).0 [
  | false ↦ returns (chip_is_valid ev chip).1
  | true ↦ decoded_by (add_hit (chip_is_valid ev chip).1 chip strip pattern)
]

-- `channel++` happens at the call of `AddHit` only, so not for a chip that is not valid.
abbrev pub next_channel : SctEvent → ℕ → ℕ → ℕ
next_channel ev chip channel = if (chip_is_valid ev chip).0 then channel + 1 else channel

-- The loop over the hits of a data packet.
unfoldable pub hit_loop : ℕ → Bitstream → SctEvent → ℕ → ℕ → ℕ → Decoded (Bitstream × SctEvent)
hit_loop zero s ev chip channel word32 = no_fuel
hit_loop (suc fuel) s ev chip channel word32 = elim (has_leading_bit word32) [
  | false ↦ returns (s, ev)
  | true ↦ elim (is_trailer (get_word32 s)) [
    | true ↦ returns (s, ev)
    | false ↦ hit_of_chip ev chip channel (bit_and (get_word32 s / 2 ^ 28) 0x7) >>= λ ev'.
        hit_loop fuel (remove_bits s 4) ev' chip (next_channel ev chip channel)
          (get_word32 (remove_bits s 4))
  ]
]

-- A data packet whose 13 bits of chip and channel are removed; a missing leading bit is set.
unfoldable pub data_packet : ℕ → Bitstream → SctEvent → ℕ → ℕ → Decoded (Bitstream × SctEvent)
data_packet fuel s ev chip channel = elim (has_leading_bit (get_word32 s)) [
  | true ↦ hit_loop fuel s ev chip channel (get_word32 s)
  | false ↦ hit_loop fuel s ev chip (bit_or channel 0x7) (bit_or (get_word32 s) 0x80000000)
]

-- The loop behind "Unable to decode bitstream".
unfoldable pub skip_loop : ℕ → Bitstream → Decoded Bitstream
skip_loop zero s = no_fuel
skip_loop (suc fuel) s = elim (is_data (get_word32 s)) [
  | true ↦ returns s
  | false ↦ elim (get_word32 s == 0) [ true ↦ returns s | false ↦ skip_loop fuel (remove_bits s 1) ]
]

-- What the loop over a side keeps. `module_event` is the module's pointer; `sctEvent`, if it is not
-- null, always points to the same object, since each assignment of it takes that pointer or sets it.
pub record Side : Type 0 where
  pub stream : Bitstream
  pub module_event : Option SctEvent
  pub has_event : Bool
  pub praeamble_found : Bool
  pub first : Bool

-- `event.GetModule(module)` behind a header, by whether this is the first side.
abbrev pub header_slot : Bool → Option SctEvent → SctEvent → Option SctEvent
header_slot true slot made = some made
header_slot false none made = some made
header_slot false (some ev) made = some ev

-- A module header.
unfoldable pub read_header : ℕ → ℕ → ℕ → Side → Side
read_header module_id led word32 sd =
    let made =
      make_sct_event module_id (bit_and (word32 / 2 ^ 22) 0xf) (bit_and (word32 / 2 ^ 14) 0xff) in
    record sd {
      stream = remove_bits sd.stream 19;
      module_event = header_slot (led == 0) sd.module_event made;
      has_event = true;
      praeamble_found = true;
    }

-- The packets behind a header; `true` is the `break` at a trailer.
unfoldable pub read_packet : ℕ → Side → SctEvent → Decoded (Side × Bool)
read_packet fuel sd ev =
    let w = get_word32 sd.stream in
    if is_error w
    then (error_of_chip ev (bit_and (w / 2 ^ 25) 0xF) (bit_and (w / 2 ^ 22) 0x7) >>= λ ev'.
        returns (record sd { stream = remove_bits sd.stream 11; module_event = some ev' }, false))
    else if is_config w
    then returns (record sd { stream = remove_bits sd.stream 28 }, false)
    else if is_data w
    then (data_packet fuel (remove_bits sd.stream 13) ev (bit_and (w / 2 ^ 26) 0xF)
          (bit_and (w / 2 ^ 19) 0x7F)
        >>= λ r. returns (record sd { stream = r.0; module_event = some r.1 }, false))
    else if is_nodata w
    then returns (record sd { stream = remove_bits sd.stream 3 }, false)
    else if is_trailer w
    then returns (sd, true)
    else if not (w == 0) && not (w == 0x80000000)
    then (skip_loop fuel sd.stream >>= λ s. returns (record sd { stream = s }, false))
    else returns (record sd { stream = remove_bits sd.stream 1 }, false)

-- The packets of the object that `sctEvent` points to.
unfoldable pub read_slot : ℕ → Side → Option SctEvent → Decoded (Side × Bool)
read_slot fuel sd none = null_pointer
read_slot fuel sd (some ev) = read_packet fuel sd ev

-- A round of the loop, behind the search for the header.
unfoldable pub read_rest : ℕ → Side → Decoded (Side × Bool)
read_rest fuel sd = elim (sd.praeamble_found && sd.has_event) [
  | false ↦ returns (record sd { stream = remove_bits sd.stream 1; praeamble_found = false }, false)
  | true ↦ read_slot fuel sd sd.module_event
]

unfoldable pub round : ℕ → ℕ → ℕ → ℕ → Side → Decoded (Side × Bool)
round fuel module_id led other sd =
    let word32 = header_word sd.first led (get_word32 sd.stream) other in
    let sd' = record sd { first = false } in
    elim (is_header word32) [
      | true ↦ returns (read_header module_id led word32 sd', false)
      | false ↦ read_rest fuel sd'
    ]

-- `while (bitstream.BitsAvailable())`
unfoldable pub side_loop : ℕ → ℕ → ℕ → ℕ → ℕ → Side → Decoded Side
side_loop zero inner module_id led other sd = no_fuel
side_loop (suc fuel) inner module_id led other sd = elim (bits_available sd.stream) [
  | false ↦ returns sd
  | true ↦ round inner module_id led other sd >>= λ r. elim r.1 [
    | true ↦ returns r.0
    | false ↦ side_loop fuel inner module_id led other r.0
  ]
]

-- Enough rounds for `n` words of 24 bits.
abbrev pub rounds : ℕ → ℕ
rounds n = suc (50 * n + 100)

abbrev pub words_of_side : List (ℕ × List ℕ) → ℕ → ℕ → List ℕ
words_of_side db module_id led = words_under (module_key module_id led) db

-- One side: the module's pointer and whether `sctEvent` is set, before and after.
unfoldable pub decode_side :
    List (ℕ × List ℕ) → ℕ → ℕ → Option SctEvent × Bool → Decoded (Option SctEvent × Bool)
decode_side db module_id led (slot, has) =
    let ws = words_of_side db module_id led in
    side_loop (rounds (length ws)) (rounds (length ws)) module_id led
      (get_word32 (make_bitstream (words_of_side db module_id (1 - led))))
      record {
        stream = make_bitstream ws;
        module_event = slot;
        has_event = has;
        praeamble_found = false;
        first = true;
      }
    >>= λ sd. returns (sd.module_event, sd.has_event)

-- One module, and the modules one after the other from `module_id` on.
unfoldable pub decode_module : List (ℕ × List ℕ) → ℕ → Option SctEvent → Decoded (Option SctEvent)
decode_module db module_id slot = decode_side db module_id 0 (slot, false) >>= λ r.
    decode_side db module_id 1 r >>= λ r'. returns r'.0

unfoldable pub decode_modules :
    List (ℕ × List ℕ) → ℕ → List (Option SctEvent) → Decoded (List (Option SctEvent))
decode_modules db module_id [] = returns []
decode_modules db module_id (slot ∷ slots) = decode_module db module_id slot >>= λ slot'.
    decode_modules db (module_id + 1) slots >>= λ slots'. returns (slot' ∷ slots')

-- `m_hits_per_module` before: eight pointers that are null.
abbrev pub no_modules : List (Option SctEvent)
no_modules = none ∷ none ∷ none ∷ none ∷ none ∷ none ∷ none ∷ none ∷ []

unfoldable pub decode_module_data : List (ℕ × List ℕ) → Decoded (List (Option SctEvent))
unfolding decode_modules
decode_module_data db = decode_modules db 0 no_modules

-- The constructor of `TrackerDataFragment`.
unfoldable pub make_tracker_data_fragment :
    ℕ → List ℕ → ℕ → Decoded (TrbEvent × List (Option SctEvent))
make_tracker_data_fragment junk buf size =
    elim (decode_frames {E = TrackerDataException} junk buf size) [
      | ok ev ↦ decode_module_data ev.m_mod_db >>= λ slots. returns (ev, slots)
      | throw e ↦ throws e
      | fault ↦ overrun
    ]
