-- ===== src/Filter.antt =====
-- EventFormats/apps/eventFilter.cxx: the loop of `main`, behind the parsing of the arguments and
-- the opening of the files. Files are lists of bytes; what is printed is left out.
pub mod Args
pub mod Program
pub mod Copy
pub mod Ends
pub mod Select
pub mod Printed
mod Tests
use faser_common.Common.{
  ℕ, zero, suc, ◌+◌, ◌≤◌, List, [], ◌∷◌, ◌++◌, Bool, true, false, not, ◌&&◌, ◌||◌,
}
use faser_common.Common.{ltb, leb, ◌==◌, if◌then◌else◌, length, bit_and, ok, throw, fault, Result}
use faser_common.Common.Bytes.{load_bytes}
use faser_common.Daq.Defs.{EFormatException}
use faser_common.Daq.Event.{EventFull, read_event, raw, size_of}

-- The settings that the arguments leave: `n_events_max` is 0 for every value that is not positive,
-- and the event numbers are as they are compared, converted to `uint64_t`.
pub record Options : Type 0 where
  pub n_events_max : ℕ
  pub event_list : List ℕ
  pub mask : ℕ

-- `std::find`
unfoldable pub contains : List ℕ → ℕ → Bool
contains [] n = false
contains (x ∷ xs) n = x == n || contains xs n

abbrev is_empty : List ℕ → Bool
is_empty [] = true
is_empty (x ∷ xs) = false

-- The two tests that lead to `continue`.
unfoldable pub skips : Options → EventFull → Bool
unfolding contains
skips o ev =
    (not (is_empty o.event_list) && not (contains o.event_list ev.header.event_counter))
    || (ltb 0 o.mask && bit_and ev.header.trigger_bits o.mask == 0)

-- The end of `main`: what was written, and whether it returns 0 or 1. `fault` is an access out of
-- bounds; `stuck` is no end of the program, but of the fuel.
pub data Outcome : Type 0 where
  finished failed : List ℕ → Outcome
  overrun stuck : Outcome

-- `out.write`: `event.size()` bytes from the start of `raw`.
unfoldable pub written : EventFull → Result EFormatException (List ℕ)
written ev = load_bytes (raw ev) 0 (size_of ev)

unfoldable pub filter_loop : ℕ → Options → List ℕ → ℕ → List ℕ → Outcome
filter_loop fuel o [] n out = finished out
filter_loop zero o (b ∷ bs) n out = stuck
filter_loop (suc fuel) o (b ∷ bs) n out = elim (read_event (b ∷ bs)) [
  | throw e ↦ failed out
  | fault ↦ overrun
  | ok (ev, rest) ↦ elim (skips o ev) [
    | true ↦ filter_loop fuel o rest n out
    | false ↦ elim (written ev) [
      | throw e ↦ failed out
      | fault ↦ overrun
      | ok bytes ↦ elim (ltb 0 o.n_events_max && leb o.n_events_max (n + 1)) [
        | true ↦ finished (out ++ bytes)
        | false ↦ filter_loop fuel o rest (n + 1) (out ++ bytes)
      ]
    ]
  ]
]

-- Each round takes a header at least, so that a round for each byte is enough. The output file
-- holds `old` already if the program appends to it.
unfoldable pub filter_events : Options → List ℕ → List ℕ → Outcome
unfolding filter_loop
filter_events o input old = filter_loop (length input) o input 0 old
