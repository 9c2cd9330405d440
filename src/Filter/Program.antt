-- ===== src/Filter/Program.antt =====
-- EventFormats/apps/eventFilter.cxx: `main` from its arguments on. `getopt` and the files are
-- parameters: what `getopt` returns call by call, with the operands that it leaves, the bytes of a
-- file that can be opened for reading, and those of one that can be opened for writing.
pub mod Named
pub mod Whole
use faser_common.Common.{
  ℕ, zero, suc, ◌+◌, ◌-◌, ◌*◌, ◌%◌, ◌^◌, List, [], ◌∷◌, ◌++◌, Bool, true, false, ◌&&◌, ◌||◌, map,
}
use faser_common.Common.{
  ◌==◌, ltb, leb, if◌then◌else◌, length, Option, none, some, Result, ok, throw, fault, ◌>>=◌,
}
use faser_common.Filter.{Options, Outcome, filter_events}
use faser_common.Filter.Args.{
  ℤ, pos, negsuc, ArgException, usage, atoi, read_event_list, signed, take_while, drop_while,
  is_space,
}

-- A hexadecimal digit and its value.
abbrev is_hex : ℕ → Bool
is_hex c = (leb b'0' c && leb c b'9') || (leb b'a' c && leb c b'f') || (leb b'A' c && leb c b'F')

abbrev hex_digit : ℕ → ℕ
hex_digit c = if leb c b'9' then c - b'0' else if leb b'a' c then c - b'a' + 10 else c - b'A' + 10

unfoldable pub hex_value : ℕ → List ℕ → ℕ
hex_value seen [] = seen
hex_value seen (c ∷ cs) = hex_value (seen * 16 + hex_digit c) cs

abbrev without_0x : List ℕ → List ℕ
without_0x (a ∷ b ∷ cs) = if a == b'0' && (b == b'x' || b == b'X') then cs else a ∷ b ∷ cs
without_0x cs = cs

-- `sscanf(optarg, "%hx", &mask)`: a mask is left where there are no digits, and a number beyond 16
-- bits is undefined.
abbrev scanned : List ℕ → Bool → ℕ → ℕ → Result ArgException ℕ
scanned [] negative n mask = ok mask
scanned (d ∷ ds) negative n mask =
    if leb (2 ^ 16) n then fault else ok (if negative then (2 ^ 16 - n) % 2 ^ 16 else n)

unfoldable pub scan_mask : List ℕ → ℕ → Result ArgException ℕ
unfolding hex_value
scan_mask s mask =
    let (negative, t) = signed (drop_while is_space s) in
    let ds = take_while is_hex (without_0x t) in scanned ds negative (hex_value 0 ds) mask

-- The variables that the options set.
pub record Settings : Type 0 where
  pub n_events_max : ℤ
  pub event_list : List ℤ
  pub append : Bool
  pub mask : ℕ

abbrev pub no_settings : Settings
no_settings = record { n_events_max = negsuc 0; event_list = []; append = false; mask = 0 }

-- The switch on what `getopt` returned; 'd' and ':' set nothing.
unfoldable pub read_option : ℕ → List ℕ → Settings → Result ArgException Settings
read_option opt optarg s =
    if opt == b'a'
    then ok (record s { append = true })
    else if opt == b'n'
    then (atoi optarg >>= λ n. ok (record s { n_events_max = n }))
    else if opt == b'e'
    then (read_event_list optarg s.event_list >>= λ ns. ok (record s { event_list = ns }))
    else if opt == b't'
    then (scan_mask optarg s.mask >>= λ m. ok (record s { mask = m }))
    else if opt == b'?'
    then throw usage
    else ok s

unfoldable pub read_options : List (ℕ × List ℕ) → Settings → Result ArgException Settings
read_options [] s = ok s
read_options ((opt, optarg) ∷ opts) s = read_option opt optarg s >>= λ s'. read_options opts s'

-- The settings as the loop compares them: an `int` converted to `uint64_t`, and a limit only if it is
-- positive.
abbrev pub to_uint64 : ℤ → ℕ
to_uint64 (pos n) = n
to_uint64 (negsuc n) = 2 ^ 64 - 1 - n

abbrev limit_of : ℤ → ℕ
limit_of (pos n) = n
limit_of (negsuc n) = 0

abbrev pub options_of : Settings → Options
options_of s = record {
  n_events_max = limit_of s.n_events_max;
  event_list = map to_uint64 s.event_list;
  mask = s.mask;
}

-- The end of the program: a file that cannot be opened makes it return 1.
pub data Exit : Type 0 where
  unopened : Exit
  ran : Outcome → Exit

-- The operands are the names of the two files; the one to write is emptied but for the option -a.
unfoldable pub run_files :
    (List ℕ → Option (List ℕ))
    → (List ℕ → Option (List ℕ))
    → Settings
    → List (List ℕ)
    → Result ArgException Exit
run_files to_read to_write s [] = throw usage
run_files to_read to_write s (infilename ∷ []) = throw usage
run_files to_read to_write s (infilename ∷ outfilename ∷ more) = elim (to_read infilename) [
  | none ↦ ok unopened
  | some input ↦ elim (to_write outfilename) [
    | none ↦ ok unopened
    | some old ↦ ok (ran (filter_events (options_of s) input (if s.append then old else [])))
  ]
]

unfoldable pub main :
    (List (List ℕ) → List (ℕ × List ℕ) × List (List ℕ))
    → (List ℕ → Option (List ℕ))
    → (List ℕ → Option (List ℕ))
    → List (List ℕ)
    → Result ArgException Exit
unfolding run_files read_options
main getopt to_read to_write argv =
    if ltb (length argv) 3
    then throw usage
    else (read_options (getopt argv).0 no_settings >>= λ s.
        run_files to_read to_write s (getopt argv).1)
