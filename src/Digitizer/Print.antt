-- ===== src/Digitizer/Print.antt =====
-- EventFormats/EventFormats/DigitizerDataFragment.hpp: its `operator<<`. Nothing in it throws what its
-- `catch` takes, so that an exception of `at` leaves the operator.
pub mod Rows
pub mod Table
mod Tests
use faser_common.Common.{
  ℕ, zero, suc, ◌+◌, List, [], ◌∷◌, ◌++◌, Option, some, none, get_elem?, true, false, Result, ok,
  throw, ◌>>=◌,
}
use faser_common.Common.OrderedMap.{find}
use faser_common.Stream.{Ostream, Item, number, str, setw, setfill, hex, dec, endl, puts}
use faser_common.Digitizer.{
  DigitizerDataFragment, get_bit, n_max_chan, channel_has_data, event_size, board_id,
  board_fail_flag, pattern_trig_options, channel_mask, event_counter, trigger_time_tag, n_samples,
  adc_counts,
}

-- `std::out_of_range`
pub data OutOfRange : Type 0 where
  out_of_range : OutOfRange

-- `at`
unfoldable pub at : List ℕ → ℕ → Result OutOfRange ℕ
at counts i = elim (get_elem? counts i) [ none ↦ throw out_of_range | some n ↦ ok n ]

-- `adc_counts()[channel]`: the map is a copy, which gets an empty vector for a missing channel.
unfoldable pub counts_of : DigitizerDataFragment → ℕ → List ℕ
unfolding find
counts_of f channel = elim (find channel (adc_counts f)) [ none ↦ [] | some counts ↦ counts ]

abbrev pub header_items : DigitizerDataFragment → List Item
header_items f =
    str "Digitizer Fragment"
    ∷ endl
    ∷ setw 30
    ∷ str " event_size:           "
    ∷ setfill b' '
    ∷ setw 32
    ∷ hex
    ∷ number (event_size f)
    ∷ setfill b' '
    ∷ endl
    ∷ setw 30
    ∷ str " board_id:             "
    ∷ setfill b' '
    ∷ setw 32
    ∷ dec
    ∷ number (board_id f)
    ∷ setfill b' '
    ∷ endl
    ∷ setw 30
    ∷ str " board_fail_flag:      "
    ∷ setfill b' '
    ∷ setw 32
    ∷ dec
    ∷ number (board_fail_flag f)
    ∷ setfill b' '
    ∷ endl
    ∷ setw 30
    ∷ str " pattern_trig_options: "
    ∷ setfill b' '
    ∷ setw 32
    ∷ dec
    ∷ number (pattern_trig_options f)
    ∷ setfill b' '
    ∷ endl
    ∷ setw 30
    ∷ str " channel_mask:         "
    ∷ setfill b' '
    ∷ setw 32
    ∷ dec
    ∷ number (channel_mask f)
    ∷ setfill b' '
    ∷ endl
    ∷ setw 30
    ∷ str " event_counter:        "
    ∷ setfill b' '
    ∷ setw 32
    ∷ dec
    ∷ number (event_counter f)
    ∷ setfill b' '
    ∷ endl
    ∷ setw 30
    ∷ str " trigger_time_tag:     "
    ∷ setfill b' '
    ∷ setw 32
    ∷ dec
    ∷ number (trigger_time_tag f)
    ∷ setfill b' '
    ∷ endl
    ∷ []

-- The header of the table, `left` channels from `i_chan` on.
unfoldable pub channel_items : ℕ → ℕ → ℕ → List Item
channel_items zero i_chan mask = endl ∷ []
channel_items (suc left) i_chan mask =
    setw 6
    ∷ dec
    ∷ number i_chan
    ∷ str "["
    ∷ number (get_bit mask i_chan)
    ∷ str "]"
    ∷ channel_items left (i_chan + 1) mask

-- A row of the table, `left` channels from `i_chan` on.
unfoldable pub print_cells : ℕ → ℕ → ℕ → DigitizerDataFragment → Ostream → Result OutOfRange Ostream
unfolding at counts_of
print_cells zero i_chan i_samp f out = ok (puts out (endl ∷ []))
print_cells (suc left) i_chan i_samp f out = elim (channel_has_data f i_chan) [
  | true ↦ at (counts_of f i_chan) i_samp >>= λ n.
      print_cells left (i_chan + 1) i_samp f (puts out (setw 9 ∷ dec ∷ number n ∷ []))
  | false ↦ print_cells left (i_chan + 1) i_samp f (puts out (setw 9 ∷ str " - " ∷ []))
]

-- The rows, `left` of them from `i_samp` on.
unfoldable pub print_rows : ℕ → ℕ → DigitizerDataFragment → Ostream → Result OutOfRange Ostream
unfolding print_cells
print_rows zero i_samp f out = ok out
print_rows (suc left) i_samp f out =
    print_cells n_max_chan 0 i_samp f (puts out (setw 10 ∷ dec ∷ number i_samp ∷ str "|" ∷ []))
    >>= λ out'. print_rows left (i_samp + 1) f out'

unfoldable pub print_fragment : Ostream → DigitizerDataFragment → Result OutOfRange Ostream
unfolding channel_items print_rows
print_fragment out f =
    let header = puts out (header_items f) in
    let columns = puts header (setw 10 ∷ dec ∷ str "Time" ∷ str "|" ∷ []) in
    print_rows (n_samples f) 0 f (puts columns (channel_items n_max_chan 0 (channel_mask f)))
