-- ===== src/Filter/Args/Lists.antt =====
-- The texts of lists of event numbers, and what is read from them.
use faser_common.Common.{
  ℕ, zero, suc, ◌+◌, ◌-◌, ◌^◌, ◌≤◌, ◌<◌, ◌≡◌, refl, sym, ap, ◌∙◌, List, [], ◌∷◌, ◌++◌, true, false,
  All, map, append_assoc, append-nil, All-append, arith,
}
use faser_common.Common.{◌==◌, ltb, leb, none, some, ok, Bool-cases, inl, inr}
use faser_common.Filter.Args.{
  ℤ, pos, is_digit, is_space, take_while, drop_while, digits_value, stoi, token, tokens, at_hyphen,
  range_loop, range, token_numbers, read_tokens, read_event_list,
}

-- An item of a list of event numbers, in digits: a number, or the first and last of a range.
pub data Item : Type 0 where
  one : List ℕ → Item
  span : List ℕ → List ℕ → Item

abbrev pub item_text : Item → List ℕ
item_text (one ds) = ds
item_text (span ds es) = ds ++ (b'-' ∷ es)

-- Items between commas.
abbrev pub list_text : List Item → List ℕ
list_text [] = []
list_text (x ∷ []) = item_text x
list_text (x ∷ y ∷ r) = item_text x ++ (b',' ∷ list_text (y ∷ r))

-- `k` numbers from `n` on.
abbrev pub count_from : ℕ → ℕ → List ℤ
count_from n zero = []
count_from n (suc k) = pos n ∷ count_from (suc n) k

abbrev number : List ℕ → ℕ
number ds = digits_value 0 ds

abbrev pub item_numbers : Item → List ℤ
item_numbers (one ds) = pos (digits_value 0 ds) ∷ []
item_numbers (span ds es) =
    count_from (digits_value 0 ds) (digits_value 0 es + 1 - digits_value 0 ds)

abbrev pub list_numbers : List Item → List ℤ
list_numbers [] = []
list_numbers (x ∷ xs) = item_numbers x ++ list_numbers xs

-- Digits of a number below the greatest `int`.
abbrev pub IsNumber : List ℕ → Type 0
IsNumber [] = ⊥
IsNumber (d ∷ ds) = All (λ c. (48 ≤ c) × (c ≤ 57)) (d ∷ ds) × (digits_value 0 (d ∷ ds) < 2 ^ 31 - 1)

abbrev pub IsItem : Item → Type 0
IsItem (one ds) = IsNumber ds
IsItem (span ds es) = IsNumber ds × IsNumber es

abbrev IsDigit : ℕ → Type 0
IsDigit c = (48 ≤ c) × (c ≤ 57)

take_while-digits : (ds : List ℕ) → All IsDigit ds → take_while is_digit ds ≡ ds
unfolding take_while
take_while-digits [] h = refl
take_while-digits (c ∷ cs) h =
    let yes_digit : is_digit c ≡ true = ground (arith, h.0.0, h.0.1) in
    rw (yes_digit, take_while-digits cs h.1) refl

stoi-IsNumber : (ds : List ℕ) → IsNumber ds → stoi ds ≡ ok (pos (digits_value 0 ds))
unfolding stoi drop_while
stoi-IsNumber [] h = absurd h
stoi-IsNumber (d ∷ ds) h =
    let no_space : is_space d ≡ false = ground (arith, h.0.0.0, h.0.0.1) in
    let no_minus : (d == b'-') ≡ false = ground (arith, h.0.0.0) in
    let no_plus : (d == b'+') ≡ false = ground (arith, h.0.0.0) in
    let all : take_while is_digit (d ∷ ds) ≡ d ∷ ds = take_while-digits (d ∷ ds) h.0 in
    let fits : ltb (digits_value 0 (d ∷ ds)) (2 ^ 31) ≡ true = ground (arith, h.1) in
    rw (no_space, no_minus, no_plus, all, fits) refl

IsNumber-digits : (ds : List ℕ) → IsNumber ds → All IsDigit ds
IsNumber-digits [] h = tt
IsNumber-digits (d ∷ ds) h = h.0

digit_no_hyphen : (c : ℕ) → IsDigit c → (c == b'-') ≡ false
digit_no_hyphen c h = ground (arith, h.0)

digit_no_comma : (c : ℕ) → IsDigit c → (c == b',') ≡ false
digit_no_comma c h = ground (arith, h.0)

at_hyphen-digits : (ds : List ℕ) → All IsDigit ds → at_hyphen ds ≡ none
unfolding at_hyphen
at_hyphen-digits [] h = refl
at_hyphen-digits (c ∷ cs) h = rw (at_hyphen, digit_no_hyphen c h.0, at_hyphen-digits cs h.1) refl

at_hyphen-span : (ds es : List ℕ) → All IsDigit ds → at_hyphen (ds ++ (b'-' ∷ es)) ≡ some (ds, es)
unfolding at_hyphen
at_hyphen-span [] es h = refl
at_hyphen-span (c ∷ cs) es h = rw (at_hyphen, digit_no_hyphen c h.0, at_hyphen-span cs es h.1) refl

range_loop-count_from :
    (rounds a b : ℕ)
    → b + 1 - a ≤ rounds
    → range_loop rounds (pos a) (pos b) ≡ count_from a (b + 1 - a)
unfolding range_loop
range_loop-count_from zero a b h =
    let done : b + 1 - a ≡ 0 = omega arith in sym (ap (count_from a) done)
range_loop-count_from (suc rounds) a b h = elim (Bool-cases (leb a b)) [
  | inl e ↦
      let more : b + 1 - a ≡ suc (b + 1 - suc a) = ground arith in
      rw (range_loop, e)
        (ap (λ t. pos a ∷ t) (range_loop-count_from rounds (suc a) b (omega arith))
          ∙ sym (ap (count_from a) more))
  | inr e ↦
      let done : b + 1 - a ≡ 0 = ground arith in rw (range_loop, e) (sym (ap (count_from a) done))
]

range-count_from :
    (a b : ℕ) → b < 2 ^ 31 - 1 → range (pos a) (pos b) ≡ ok (count_from a (b + 1 - a))
unfolding range
range-count_from a b h =
    let below : leb (2 ^ 31 - 1) b ≡ false = ground arith in
    rw below (ap ok (range_loop-count_from (2 ^ 32) a b (omega arith)))

IsNumber-lt : (ds : List ℕ) → IsNumber ds → digits_value 0 ds < 2 ^ 31 - 1
IsNumber-lt [] h = absurd h
IsNumber-lt (d ∷ ds) h = h.1

token_numbers-item_text : (x : Item) → IsItem x → token_numbers (item_text x) ≡ ok (item_numbers x)
unfolding token_numbers
token_numbers-item_text (one ds) h =
    rw (token_numbers, at_hyphen-digits ds (IsNumber-digits ds h), stoi-IsNumber ds h) refl
token_numbers-item_text (span ds es) h =
    rw
      (
        token_numbers,
        at_hyphen-span ds es (IsNumber-digits ds h.0),
        stoi-IsNumber ds h.0,
        stoi-IsNumber es h.1,
        range-count_from (digits_value 0 ds) (digits_value 0 es) (IsNumber-lt es h.1),
      )
      refl

-- No comma in a text.
abbrev NoComma : List ℕ → Type 0
NoComma = All (λ c. (c == b',') ≡ false)

digits-NoComma : (ds : List ℕ) → All IsDigit ds → NoComma ds
digits-NoComma [] h = tt
digits-NoComma (c ∷ cs) h = (digit_no_comma c h.0, digits-NoComma cs h.1)

item_text-NoComma : (x : Item) → IsItem x → NoComma (item_text x)
item_text-NoComma (one ds) h = digits-NoComma ds (IsNumber-digits ds h)
item_text-NoComma (span ds es) h =
    All-append (λ c. (c == b',') ≡ false) ds (b'-' ∷ es)
      (digits-NoComma ds (IsNumber-digits ds h.0))
      (refl, digits-NoComma es (IsNumber-digits es h.1))

tokens-last : (ds seen : List ℕ) → NoComma ds → tokens seen ds ≡ token (seen ++ ds) []
unfolding tokens
tokens-last [] seen h = ap (λ t. token t []) (sym (append-nil seen))
tokens-last (c ∷ cs) seen h =
    rw (tokens, h.0)
      (tokens-last cs (seen ++ (c ∷ [])) h.1 ∙ ap (λ t. token t []) (append_assoc seen (c ∷ []) cs))

tokens-next :
    (ds seen rest : List ℕ)
    → NoComma ds
    → tokens seen (ds ++ (b',' ∷ rest)) ≡ token (seen ++ ds) (tokens [] rest)
unfolding tokens
tokens-next [] seen rest h = ap (λ t. token t (tokens [] rest)) (sym (append-nil seen))
tokens-next (c ∷ cs) seen rest h =
    rw (tokens, h.0)
      (tokens-next cs (seen ++ (c ∷ [])) rest h.1
        ∙ ap (λ t. token t (tokens [] rest)) (append_assoc seen (c ∷ []) cs))

token-item_text :
    (x : Item) (rest : List (List ℕ)) → IsItem x → token (item_text x) rest ≡ item_text x ∷ rest
token-item_text (one []) rest h = absurd h
token-item_text (one (d ∷ ds)) rest h = refl
token-item_text (span [] es) rest h = absurd h.0
token-item_text (span (d ∷ ds) es) rest h = refl

tokens-list_text : (xs : List Item) → All IsItem xs → tokens [] (list_text xs) ≡ map item_text xs
unfolding tokens
tokens-list_text [] h = refl
tokens-list_text (x ∷ []) h =
    tokens-last (item_text x) [] (item_text-NoComma x h.0) ∙ token-item_text x [] h.0
tokens-list_text (x ∷ y ∷ r) h =
    tokens-next (item_text x) [] (list_text (y ∷ r)) (item_text-NoComma x h.0)
    ∙ ap (token (item_text x)) (tokens-list_text (y ∷ r) h.1)
    ∙ token-item_text x (map item_text (y ∷ r)) h.0

read_tokens-item_text :
    (xs : List Item) (old : List ℤ)
    → All IsItem xs
    → read_tokens (map item_text xs) old ≡ ok (old ++ list_numbers xs)
unfolding read_tokens
read_tokens-item_text [] old h = ap ok (sym (append-nil old))
read_tokens-item_text (x ∷ xs) old h = rw (token_numbers-item_text x h.0) (
    read_tokens-item_text xs (old ++ item_numbers x) h.1
    ∙ ap ok (append_assoc old (item_numbers x) (list_numbers xs)))

-- The option -e adds to the list of event numbers exactly those of its text: for numbers and ranges
-- in digits, below the greatest `int` and with commas between them, each number, and all numbers from
-- the first to the last of each range, in order.
pub read_event_list-list_text :
    (xs : List Item) (old : List ℤ)
    → All IsItem xs
    → read_event_list (list_text xs) old ≡ ok (old ++ list_numbers xs)
unfolding read_event_list
read_event_list-list_text xs old h =
    ap (λ ts. read_tokens ts old) (tokens-list_text xs h) ∙ read_tokens-item_text xs old h
