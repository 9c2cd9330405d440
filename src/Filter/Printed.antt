-- ===== src/Filter/Printed.antt =====
-- The number that the line of an event shows, as an argument of the filter.
use faser_common.Common.{
  ℕ, zero, suc, ◌-◌, ◌^◌, ◌<◌, ◌≡◌, ◌↔◌, inl, inr, refl, sym, ap, ◌∙◌, List, [], ◌∷◌, ◌++◌, false,
  All, append_assoc, arith,
}
use faser_common.Common.{drop, length, ok, false, true}
use faser_common.Stream.{decimal, number_text, padded, replicate, plain_stream}
use faser_common.Stream.Numbers.{IsDigit, number_text-IsDigit, digits_value-number_text}
use faser_common.Daq.Event.{EventFull}
use faser_common.Daq.Print.{print_event}
use faser_common.Daq.Print.Lines.{print_event-line}
use faser_common.Filter.{skips}
use faser_common.Filter.Select.{skips_iff}
use faser_common.Filter.Args.{
  ℤ, pos, is_digit, is_space, take_while, drop_while, digits_value, read_event_list,
}
use faser_common.Filter.Args.Lists.{one, IsNumber, read_event_list-list_text}
use faser_common.Filter.Program.{no_settings, options_of}

-- The number behind "Event: " and spaces.
unfoldable pub shown_number : List ℕ → List ℕ
unfolding take_while drop_while
shown_number line = take_while is_digit (drop_while is_space (drop 7 line))

drop_while-spaces :
    (k c : ℕ) (cs : List ℕ)
    → IsDigit c
    → drop_while is_space (replicate k b' ' ++ (c ∷ cs)) ≡ c ∷ cs
unfolding drop_while replicate
drop_while-spaces zero c cs h =
    let no_space : is_space c ≡ false = ground (arith, h.0, h.1) in rw no_space refl
drop_while-spaces (suc k) c cs h = drop_while-spaces k c cs h

take_while-space :
    (ds rest : List ℕ) → All IsDigit ds → take_while is_digit (ds ++ (b' ' ∷ rest)) ≡ ds
unfolding take_while
take_while-space [] rest h = refl
take_while-space (c ∷ cs) rest h =
    let yes_digit : is_digit c ≡ true = ground (arith, h.0.0, h.0.1) in
    rw (yes_digit, take_while-space cs rest h.1) refl

shown :
    (ds rest : List ℕ) (c : ℕ) (cs : List ℕ)
    → ds ≡ c ∷ cs
    → All IsDigit (c ∷ cs)
    → take_while is_digit (drop_while is_space (padded 8 b' ' ds ++ (b' ' ∷ rest))) ≡ ds
unfolding padded
shown ds rest c cs e h = rw e (
    ap (λ t. take_while is_digit (drop_while is_space t))
      (append_assoc (replicate (8 - length (c ∷ cs)) b' ') (c ∷ cs) (b' ' ∷ rest))
    ∙ ap (take_while is_digit) (drop_while-spaces (8 - length (c ∷ cs)) c (cs ++ (b' ' ∷ rest)) h.0)
    ∙ take_while-space (c ∷ cs) rest h)

shown_number-print_event :
    (ev : EventFull)
    → shown_number (print_event (plain_stream []) ev).text
      ≡ number_text decimal ev.header.event_counter
unfolding shown_number
shown_number-print_event ev =
    let (c, cs, e, digits) = number_text-IsDigit ev.header.event_counter in
    ap (λ s. shown_number s.text) (print_event-line [] ev)
    ∙ shown (number_text decimal ev.header.event_counter) _ c cs e digits

-- The number of an event, as one item of a list for the option -e.
printed-IsNumber : (n : ℕ) → n < 2 ^ 31 - 1 → IsNumber (number_text decimal n)
printed-IsNumber n h =
    let (c, cs, e, digits) = number_text-IsDigit n in
    let value : digits_value 0 (c ∷ cs) ≡ n =
      sym (ap (digits_value 0) e) ∙ digits_value-number_text n in
    rw e (digits, omega (arith, value))

read_event_list-number_text :
    (n : ℕ) → n < 2 ^ 31 - 1 → read_event_list (number_text decimal n) [] ≡ ok (pos n ∷ [])
read_event_list-number_text n h =
    read_event_list-list_text (one (number_text decimal n) ∷ []) [] (printed-IsNumber n h, tt)
    ∙ ap (λ (t : ℕ). ok (pos t ∷ [])) (digits_value-number_text n)

selects_one :
    (n : ℕ) (other : EventFull)
    → (skips (options_of (record no_settings { event_list = pos n ∷ [] })) other ≡ false)
      ↔ (n ≡ other.header.event_counter)
selects_one n other =
    let iff = skips_iff (options_of (record no_settings { event_list = pos n ∷ [] })) other in
    (
      λ h. elim (iff.0 h).0 [ inl e ↦ cc e | inr (inl e) ↦ e | inr (inr e) ↦ absurd e ],
      λ e. iff.1 (inr (inl e), inl refl),
    )

-- The number that the line of an event shows is one that the filter's option -e reads, and with it
-- alone the filter takes exactly the events with the counter of the event that was printed, if that
-- is below the greatest `int`.
pub skips-print_event :
    (ev other : EventFull)
    → ev.header.event_counter < 2 ^ 31 - 1
    → (ns : List ℤ) × (read_event_list (shown_number (print_event (plain_stream []) ev).text) []
        ≡ ok ns)
      × ((skips (options_of (record no_settings { event_list = ns })) other ≡ false)
          ↔ (other.header.event_counter ≡ ev.header.event_counter))
skips-print_event ev other h =
    let n : ℕ = ev.header.event_counter in
    let iff = selects_one n other in
    (
      pos n ∷ [],
      ap (λ t. read_event_list t []) (shown_number-print_event ev)
          ∙ read_event_list-number_text n h,
      (λ e. sym (iff.0 e), λ e. iff.1 (sym e)),
    )
