-- ===== src/Filter/Program/Whole.antt =====
-- The program from its arguments to the file that it writes.
use faser_common.Common.{
  ℕ, ◌≤◌, ◌≡◌, refl, ap, ◌∙◌, List, [], ◌∷◌, ◌++◌, Bool, true, false, All, arith,
}
use faser_common.Common.{ltb, if◌then◌else◌, length, Option, some, ok, ◌>>=◌}
use faser_common.Daq.Event.{EventFull}
use faser_common.Filter.{finished, filter_events}
use faser_common.Filter.Copy.{file_of, selected, limited, IsReadable, filter_events-file_of}
use faser_common.Filter.Args.Lists.{
  Item, IsItem, list_text, list_numbers, read_event_list-list_text,
}
use faser_common.Filter.Program.Named.{IsAsked, Keeps, chosen_by, selected-Keeps}
use faser_common.Filter.Program.{
  Settings, no_settings, options_of, read_option, read_options, run_files, ran, main,
}

-- The options -e with a list and, if `append` is set, -a behind it.
abbrev pub given_options : List Item → Bool → List (ℕ × List ℕ)
given_options items true = (b'e', list_text items) ∷ (b'a', []) ∷ []
given_options items false = (b'e', list_text items) ∷ []

-- What they set.
abbrev settings_for : List Item → Bool → Settings
settings_for items append = record no_settings { event_list = list_numbers items; append = append }

read_options-given_options :
    (items : List Item) (append : Bool)
    → All IsItem items
    → read_options (given_options items append) no_settings ≡ ok (settings_for items append)
unfolding read_options read_option
read_options-given_options items true h =
    rw (read_options, read_option, read_event_list-list_text items [] h) refl
read_options-given_options items false h =
    rw (read_options, read_option, read_event_list-list_text items [] h) refl

run_files-opened :
    (to_read to_write : List ℕ → Option (List ℕ)) (s : Settings) (infile outfile : List ℕ)
    (more : List (List ℕ)) (input old : List ℕ)
    → to_read infile ≡ some input
    → to_write outfile ≡ some old
    → run_files to_read to_write s (infile ∷ outfile ∷ more)
      ≡ ok (ran (filter_events (options_of s) input (if s.append then old else [])))
unfolding run_files
run_files-opened to_read to_write s infile outfile more input old r w = rw (run_files, r, w) refl

main-started :
    (getopt : List (List ℕ) → List (ℕ × List ℕ) × List (List ℕ))
    (to_read to_write : List ℕ → Option (List ℕ)) (argv : List (List ℕ)) (opts : List (ℕ × List ℕ))
    (operands : List (List ℕ)) (s : Settings)
    → 3 ≤ length argv
    → getopt argv ≡ (opts, operands)
    → read_options opts no_settings ≡ ok s
    → main getopt to_read to_write argv ≡ run_files to_read to_write s operands
unfolding main
main-started getopt to_read to_write argv opts operands s enough g r =
    let many : ltb (length argv) 3 ≡ false = ground arith in
    rw (main, many)
      (ap (λ p. read_options p.0 no_settings >>= λ s. run_files to_read to_write s p.1) g
        ∙ ap (λ d. d >>= λ s. run_files to_read to_write s operands) r)

-- Started with the option -e and a list of numbers and ranges in digits, all below the greatest
-- `int`, with or without -a behind it, on the names of two files that can be opened, the first of
-- which holds well-formed events within the reader's limit, the program writes exactly the events
-- whose numbers the list names, or all events if it names none (an empty list, or ranges that end
-- before they begin), in the order of the first file: behind what the second file holds with -a, and
-- in its place without.
pub main-file_of :
    (getopt : List (List ℕ) → List (ℕ × List ℕ) × List (List ℕ))
    (to_read to_write : List ℕ → Option (List ℕ)) (argv : List (List ℕ)) (items : List Item)
    (append : Bool) (infile outfile : List ℕ) (more : List (List ℕ)) (evs : List EventFull)
    (old : List ℕ)
    → 3 ≤ length argv
    → getopt argv ≡ (given_options items append, infile ∷ outfile ∷ more)
    → to_read infile ≡ some (file_of evs)
    → to_write outfile ≡ some old
    → All IsItem items
    → All IsReadable evs
    → (out : List EventFull) × Keeps (IsAsked items) evs out
      × (main getopt to_read to_write argv
          ≡ ok (ran (finished ((if append then old else []) ++ file_of out))))
unfolding limited
main-file_of getopt to_read to_write argv items append infile outfile more evs old enough g r w h
      v =
    (
      selected (chosen_by items) evs,
      selected-Keeps items evs,
      main-started getopt to_read to_write argv (given_options items append)
            (infile ∷ outfile ∷ more) (settings_for items append) enough g
            (read_options-given_options items append h)
          ∙ run_files-opened to_read to_write (settings_for items append) infile outfile more
              (file_of evs) old r w
          ∙ ap (λ t. ok (ran t))
              (filter_events-file_of (chosen_by items) evs (if append then old else []) v),
    )
