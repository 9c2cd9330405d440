-- ===== src/Digitizer/Print/Table.antt =====
-- What the `operator<<` of DigitizerDataFragment.hpp writes, line by line.
use faser_common.Common.{
  ℕ, zero, suc, ◌+◌, ◌≤◌, ◌≡◌, refl, ap, ◌∙◌, List, [], ◌∷◌, ◌++◌, some, none, length, Result, ok,
  throw, append_assoc, arith,
}
use faser_common.Common.OrderedMap.{find}
use faser_common.Stream.{
  Ostream, setw, dec, str, decimal, hexadecimal, number_text, padded, codes, plain_stream, puts,
}
use faser_common.Stream.Laws.{outputs, format_behind, puts-outputs}
use faser_common.Digitizer.{
  DigitizerDataFragment, get_bit, channel_adc_counts, decode_digitizer, DigitizerDataException,
  channel_not_in_map,
}
use faser_common.Digitizer.Valid.{valid-decode_digitizer}
use faser_common.Common.{Option}
use faser_common.Stream.{Item}
use faser_common.Digitizer.Print.{
  counts_of, header_items, channel_items, print_rows, print_fragment,
}
use faser_common.Digitizer.Print.Rows.{HasAll, rows_text, print_rows-text}

-- The line above the table.
unfoldable columns_text : ℕ → ℕ → ℕ → List ℕ
columns_text zero i_chan mask = 10 ∷ []
columns_text (suc left) i_chan mask =
    padded 6 b' ' (number_text decimal i_chan)
    ++ (b'['
        ∷ (number_text decimal (get_bit mask i_chan)
            ++ (b']' ∷ columns_text left (i_chan + 1) mask)))

abbrev row : List ℕ → List ℕ → List ℕ → List ℕ
row label value rest = padded 30 b' ' label ++ (padded 32 b' ' value ++ (10 ∷ rest))

-- Everything above the rows; the size is in hexadecimal digits.
unfoldable pub heading_text : DigitizerDataFragment → List ℕ
unfolding columns_text
heading_text f =
    let e = f.event in
    codes "Digitizer Fragment\n"
    ++ (row (codes " event_size:           ") (number_text hexadecimal e.event_size) (
        row (codes " board_id:             ") (number_text decimal e.board_id) (
          row (codes " board_fail_flag:      ") (number_text decimal e.board_fail_flag) (
            row (codes " pattern_trig_options: ") (number_text decimal e.pattern_trig_options) (
              row (codes " channel_mask:         ") (number_text decimal e.channel_mask) (
                row (codes " event_counter:        ") (number_text decimal e.event_counter) (
                  row (codes " trigger_time_tag:     ") (number_text decimal e.trigger_time_tag)
                    (codes "      Time|" ++ columns_text 16 0 e.channel_mask))))))))

heading_items : DigitizerDataFragment → List Item
heading_items f =
    header_items f
    ++ (setw 10 ∷ dec ∷ str "Time" ∷ str "|" ∷ channel_items 16 0 f.event.channel_mask)

heading_printed :
    (f : DigitizerDataFragment) (t : List ℕ)
    → puts (plain_stream t) (heading_items f) ≡ plain_stream (t ++ heading_text f)
unfolding heading_items outputs format_behind padded channel_items heading_text
heading_printed f t = puts-outputs (heading_items f) (plain_stream t)

print_fragment-rows :
    (f : DigitizerDataFragment) (out : Ostream)
    → print_fragment out f ≡ print_rows f.event.n_samples 0 f (puts out (heading_items f))
unfolding print_fragment heading_items puts
print_fragment-rows f out = refl

-- Everything that is printed.
abbrev pub table_text : DigitizerDataFragment → List ℕ
table_text f = heading_text f ++ rows_text f.event.n_samples 0 f

print_fragment-HasAll :
    (f : DigitizerDataFragment) (t : List ℕ)
    → HasAll f
    → print_fragment (plain_stream t) f ≡ ok (plain_stream (t ++ table_text f))
print_fragment-HasAll f t all =
    print_fragment-rows f (plain_stream t)
    ∙ ap (print_rows f.event.n_samples 0 f) (heading_printed f t)
    ∙ print_rows-text f.event.n_samples 0 f (t ++ heading_text f) all (omega arith)
    ∙ ap (λ u. ok (plain_stream u))
        (append_assoc t (heading_text f) (rows_text f.event.n_samples 0 f))

-- What the two ways to read a channel make of what the map has.
counts_read :
    (o : Option (List ℕ)) (s : List ℕ)
    → elim o as (λ _. Result DigitizerDataException (List ℕ)) [
      | none ↦ throw channel_not_in_map
      | some counts ↦ ok counts
    ]
      ≡ ok s
    → elim o as (λ _. List ℕ) [ none ↦ [] | some counts ↦ counts ] ≡ s
counts_read none s e = cc e
counts_read (some u) s e = cc e

counts_of-ok :
    (f : DigitizerDataFragment) (c : ℕ) (s : List ℕ)
    → channel_adc_counts f c ≡ ok s
    → counts_of f c ≡ s
unfolding channel_adc_counts counts_of
counts_of-ok f c s e = counts_read (find c f.event.adc_counts) s e

-- A fragment that was made of a buffer is printed to the end: no sample is looked for beyond those
-- that its channel has. Printing to a stream in the format of a new one leaves that format, and writes
-- the seven numbers of the header, the size in hexadecimal digits, the channels with their bits, and
-- for each sample a row of its number and sixteen cells, the sample of an enabled channel or a dash.
pub print_fragment-table :
    (buf : List ℕ) (size : ℕ) (f : DigitizerDataFragment) (t : List ℕ)
    → size ≤ length buf
    → decode_digitizer buf size ≡ ok f
    → print_fragment (plain_stream t) f ≡ ok (plain_stream (t ++ table_text f))
print_fragment-table buf size f t h e =
    let (sound, all, beyond) = valid-decode_digitizer buf size f h e in
    print_fragment-HasAll f t λ c small on.
      let (s, read, sized) = all c small in ap length (counts_of-ok f c s read) ∙ sized ∙ rw on refl
