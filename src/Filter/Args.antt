-- ===== src/Filter/Args.antt =====
-- EventFormats/apps/eventFilter.cxx: the arguments of `main` and the opening of the files. A text is
-- the list of its characters' codes; of the standard library's functions only what the code uses is
-- written out.
pub mod Lists
use faser_common.Common.{
  ℕ, zero, suc, ◌+◌, ◌-◌, ◌*◌, ◌%◌, ◌^◌, List, [], ◌∷◌, ◌++◌, Bool, true, false, ◌&&◌, ◌||◌, map,
}
use faser_common.Common.{
  ◌==◌, ltb, leb, if◌then◌else◌, length, Option, none, some, Result, ok, throw, fault, ◌>>=◌,
}
use faser_common.Filter.{Options, Outcome, filter_events}

-- `int`, within its 32 bits: `negsuc n` is -1 - n.
pub data ℤ : Type 0 where
  pos negsuc : ℕ → ℤ

-- What ends the program: `usage` by exit(1), the others as exceptions that nothing catches.
pub data ArgException : Type 0 where
  usage invalid_argument out_of_range : ArgException

abbrev pub is_digit : ℕ → Bool
is_digit c = leb b'0' c && leb c b'9'

abbrev pub is_space : ℕ → Bool
is_space c = c == b' ' || (leb 9 c && leb c 13)

-- The characters before the first one that fails the test, and those from it on.
unfoldable pub take_while : (ℕ → Bool) → List ℕ → List ℕ
take_while p [] = []
take_while p (c ∷ cs) = let rest = take_while p cs in if p c then c ∷ rest else []

unfoldable pub drop_while : (ℕ → Bool) → List ℕ → List ℕ
drop_while p [] = []
drop_while p (c ∷ cs) = let rest = drop_while p cs in if p c then rest else c ∷ cs

-- The number that digits stand for, `seen` before them.
unfoldable pub digits_value : ℕ → List ℕ → ℕ
digits_value seen [] = seen
digits_value seen (c ∷ cs) = digits_value (seen * 10 + (c - b'0')) cs

-- A sign and the rest.
abbrev pub signed : List ℕ → Bool × List ℕ
signed [] = (false, [])
signed (c ∷ cs) =
    if c == b'-' then (true, cs) else if c == b'+' then (false, cs) else (false, c ∷ cs)

abbrev int_of : Bool → ℕ → ℤ
int_of false n = pos n
int_of true zero = pos 0
int_of true (suc n) = negsuc n

abbrev fits_int : Bool → ℕ → Bool
fits_int negative n = if negative then leb n (2 ^ 31) else ltb n (2 ^ 31)

abbrev is_nil : List ℕ → Bool
is_nil [] = true
is_nil (c ∷ cs) = false

-- `std::stoi`
unfoldable pub stoi : List ℕ → Result ArgException ℤ
unfolding take_while drop_while digits_value
stoi s =
    let (negative, t) = signed (drop_while is_space s) in
    let ds = take_while is_digit t in
    if is_nil ds
    then throw invalid_argument
    else if fits_int negative (digits_value 0 ds)
    then ok (int_of negative (digits_value 0 ds))
    else throw out_of_range

-- `std::atoi`, which is undefined beyond the range of `int`.
unfoldable pub atoi : List ℕ → Result ArgException ℤ
unfolding take_while drop_while digits_value
atoi s =
    let (negative, t) = signed (drop_while is_space s) in
    let ds = take_while is_digit t in
    if fits_int negative (digits_value 0 ds)
    then ok (int_of negative (digits_value 0 ds))
    else fault

-- `strtok(…, ",")`, called until it returns NULL: the texts between commas that are not empty.
abbrev token : List ℕ → List (List ℕ) → List (List ℕ)
token [] rest = rest
token (c ∷ cs) rest = (c ∷ cs) ∷ rest

unfoldable pub tokens : List ℕ → List ℕ → List (List ℕ)
tokens seen [] = token seen []
tokens seen (c ∷ cs) = elim (c == b',') [
  | true ↦ token seen (tokens [] cs)
  | false ↦ tokens (seen ++ (c ∷ [])) cs
]

-- `tstr.find('-')` and the two `substr`: the texts before and behind the first hyphen.
unfoldable pub at_hyphen : List ℕ → Option (List ℕ × List ℕ)
at_hyphen [] = none
at_hyphen (c ∷ cs) = elim (c == b'-') [
  | true ↦ some ([], cs)
  | false ↦ elim (at_hyphen cs) [ none ↦ none | some (before, behind) ↦ some (c ∷ before, behind) ]
]

abbrev le_int : ℤ → ℤ → Bool
le_int (pos m) (pos n) = leb m n
le_int (pos m) (negsuc n) = false
le_int (negsuc m) (pos n) = true
le_int (negsuc m) (negsuc n) = leb n m

abbrev next_int : ℤ → ℤ
next_int (pos n) = pos (suc n)
next_int (negsuc zero) = pos 0
next_int (negsuc (suc n)) = negsuc n

-- `for (int run=start; run <= end; run++)`, with its rounds left: there are fewer than 2^32.
unfoldable pub range_loop : ℕ → ℤ → ℤ → List ℤ
range_loop zero run end = []
range_loop (suc rounds) run end = elim (le_int run end) [
  | true ↦ run ∷ range_loop rounds (next_int run) end
  | false ↦ []
]

-- Up to the greatest `int` the loop overflows, which is undefined.
unfoldable pub range : ℤ → ℤ → Result ArgException (List ℤ)
unfolding range_loop
range start end =
    if le_int (pos (2 ^ 31 - 1)) end then fault else ok (range_loop (2 ^ 32) start end)

-- The numbers of one token, and of all tokens, behind those that the list has.
unfoldable pub token_numbers : List ℕ → Result ArgException (List ℤ)
token_numbers s = elim (at_hyphen s) [
  | none ↦ stoi s >>= λ n. ok (n ∷ [])
  | some (before, behind) ↦ stoi before >>= λ start. stoi behind >>= λ end. range start end
]

unfoldable pub read_tokens : List (List ℕ) → List ℤ → Result ArgException (List ℤ)
read_tokens [] event_list = ok event_list
read_tokens (t ∷ ts) event_list = token_numbers t >>= λ ns. read_tokens ts (event_list ++ ns)

-- The option -e.
unfoldable pub read_event_list : List ℕ → List ℤ → Result ArgException (List ℤ)
unfolding tokens at_hyphen
read_event_list optarg event_list = read_tokens (tokens [] optarg) event_list
