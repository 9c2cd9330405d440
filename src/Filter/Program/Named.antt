-- ===== src/Filter/Program/Named.antt =====
-- The events that a list of numbers and ranges names, by the digits of the list alone.
use faser_common.Common.{
  ℕ, zero, suc, ◌+◌, ◌-◌, ◌*◌, ◌^◌, ◌≤◌, ◌<◌, ◌≡◌, ◌⊎◌, ◌↔◌, inl, inr, refl, sym, ap, ◌∙◌, List, [],
  ◌∷◌, ◌++◌, length, map, false, Bool-cases, arith,
}
use faser_common.Common.{◌==◌, ==_iff}
use native.Mathlib.Nat.{pow-suc}
use faser_common.Daq.Event.{EventFull}
use faser_common.Filter.{Options, skips}
use faser_common.Filter.Args.{ℤ, digits_value}
use faser_common.Filter.Args.Lists.{Item, one, span, count_from, item_numbers, list_numbers}
use faser_common.Filter.Copy.{selected}
use faser_common.Filter.Program.{to_uint64}
use faser_common.Filter.Select.{IsIn, skips_iff}

-- The number that decimal digits stand for, each by its place.
abbrev pub decimal_value : List ℕ → ℕ
decimal_value [] = 0
decimal_value (d ∷ ds) = (d - 48) * 10 ^ length ds + decimal_value ds

-- An item names its number, or those from the first to the last of its range.
abbrev pub Names : List Item → ℕ → Type 0
Names [] n = ⊥
Names (one ds ∷ xs) n = (n ≡ decimal_value ds) ⊎ Names xs n
Names (span ds es ∷ xs) n = ((decimal_value ds ≤ n) × (n ≤ decimal_value es)) ⊎ Names xs n

-- What a list asks for: the events with a number that it names, or all if it names none.
abbrev pub IsAsked : List Item → EventFull → Type 0
IsAsked items ev = Names items ev.header.event_counter ⊎ ((n : ℕ) → ¬ Names items n)

-- The second list has just those of the first with the property, in their order.
pub data Keeps (P : EventFull → Type 0) : List EventFull → List EventFull → Type 0 where
  none_left : Keeps P [] []
  kept :
      {ev : EventFull} {evs out : List EventFull}
      → P ev
      → Keeps P evs out
      → Keeps P (ev ∷ evs) (ev ∷ out)
  passed :
      {ev : EventFull} {evs out : List EventFull}
      → ¬ P ev
      → Keeps P evs out
      → Keeps P (ev ∷ evs) out

next_place : (s x p v : ℕ) → (s * 10 + x) * p + v ≡ s * (p * 10) + (x * p + v)
next_place s x p v = grind arith

digits_value-decimal_value :
    (ds : List ℕ) (seen : ℕ) → digits_value seen ds ≡ seen * 10 ^ length ds + decimal_value ds
unfolding digits_value
digits_value-decimal_value [] seen = omega arith
digits_value-decimal_value (d ∷ ds) seen =
    digits_value-decimal_value ds (seen * 10 + (d - 48))
    ∙ next_place seen (d - 48) (10 ^ length ds) (decimal_value ds)
    ∙ ap (λ (t : ℕ). seen * t + ((d - 48) * 10 ^ length ds + decimal_value ds))
        (sym (pow-suc 10 (length ds)))

value_read : (ds : List ℕ) → digits_value 0 ds ≡ decimal_value ds
value_read ds = omega (arith, digits_value-decimal_value ds 0)

-- The numbers of a list, as they are compared.
abbrev compared : List ℤ → List ℕ
compared zs = map to_uint64 zs

IsIn-append :
    (n : ℕ) (xs ys : List ℤ)
    → IsIn n (compared (xs ++ ys)) ↔ (IsIn n (compared xs) ⊎ IsIn n (compared ys))
IsIn-append n [] ys = (λ h. inr h, λ h. elim h [ inl e ↦ absurd e | inr e ↦ e ])
IsIn-append n (x ∷ xs) ys =
    let rest = IsIn-append n xs ys in
    (
      λ h. elim h [
        | inl e ↦ inl (inl e)
        | inr m ↦ elim (rest.0 m) [ inl a ↦ inl (inr a) | inr b ↦ inr b ]
      ],
      λ h. elim h [
        | inl a ↦ elim a [ inl e ↦ inl e | inr m ↦ inr (rest.1 (inl m)) ]
        | inr b ↦ inr (rest.1 (inr b))
      ],
    )

IsIn-count_from : (m n k : ℕ) → IsIn m (compared (count_from n k)) ↔ ((n ≤ m) × (m < n + k))
IsIn-count_from m n zero = (λ h. absurd h, λ h. absurd (omega (arith, h)))
IsIn-count_from m n (suc k) =
    let rest = IsIn-count_from m (suc n) k in
    (
      λ h. elim h [ inl e ↦ omega (arith, e) | inr later ↦ omega (arith, rest.0 later) ],
      λ h. elim (Bool-cases (n == m)) [
        | inl e ↦ inl ((==_iff n m).0 e)
        | inr e ↦ inr (rest.1 (ground (arith, h, e)))
      ],
    )

IsIn-list_numbers :
    (items : List Item) (n : ℕ) → IsIn n (compared (list_numbers items)) ↔ Names items n
IsIn-list_numbers [] n = (λ h. h, λ h. h)
IsIn-list_numbers (one ds ∷ xs) n =
    let rest = IsIn-list_numbers xs n in
    (
      λ h. elim h [ inl e ↦ inl (sym e ∙ value_read ds) | inr m ↦ inr (rest.0 m) ],
      λ h. elim h [ inl e ↦ inl (value_read ds ∙ sym e) | inr m ↦ inr (rest.1 m) ],
    )
IsIn-list_numbers (span ds es ∷ xs) n =
    let rest = IsIn-list_numbers xs n in
    let both = IsIn-append n (item_numbers (span ds es)) (list_numbers xs) in
    let inside =
      IsIn-count_from n (digits_value 0 ds) (digits_value 0 es + 1 - digits_value 0 ds) in
    (
      λ h. elim (both.0 h) [
        | inl a ↦ inl (omega (arith, inside.0 a, value_read ds, value_read es))
        | inr m ↦ inr (rest.0 m)
      ],
      λ h. both.1 (elim h [
        | inl a ↦ inl (inside.1 (omega (arith, a, value_read ds, value_read es)))
        | inr m ↦ inr (rest.1 m)
      ]),
    )

-- No number is in a list exactly if it is empty.
empty_iff : (xs : List ℕ) → (xs ≡ []) ↔ ((n : ℕ) → ¬ IsIn n xs)
empty_iff [] = (λ h n m. m, λ h. refl)
empty_iff (x ∷ xs) = (λ h. absurd cc, λ h. absurd (h x (inl refl)))

module _ (items : List Item) where
  -- The choice of the events by these numbers alone.
  abbrev pub chosen_by : Options
  chosen_by = record { n_events_max = 0; event_list = compared (list_numbers items); mask = 0 }

  skips-IsAsked : (ev : EventFull) → (skips chosen_by ev ≡ false) ↔ IsAsked items ev
  skips-IsAsked ev =
      let iff = skips_iff chosen_by ev in
      let empty = empty_iff (compared (list_numbers items)) in
      let named = IsIn-list_numbers items in
      (
        λ h. elim (iff.0 h).0 [
          | inl e ↦ inr (λ n m. empty.0 e n ((named n).1 m))
          | inr m ↦ inl ((named ev.header.event_counter).0 m)
        ],
        λ h. iff.1 (
          elim h [
            | inl m ↦ inr ((named ev.header.event_counter).1 m)
            | inr nothing ↦ inl (empty.1 (λ n m. nothing n ((named n).0 m)))
          ],
          inl refl,
        ),
      )

  -- The loop's choice by the numbers of a list.
  pub selected-Keeps : (evs : List EventFull) → Keeps (IsAsked items) evs (selected chosen_by evs)
  unfolding selected
  selected-Keeps [] = none_left
  selected-Keeps (ev ∷ evs) = elim (Bool-cases (skips chosen_by ev)) [
    | inl skip ↦
        rw (selected, skip) (passed (λ p. cc (skip, (skips-IsAsked ev).1 p)) (selected-Keeps evs))
    | inr keep ↦ rw (selected, keep) (kept ((skips-IsAsked ev).0 keep) (selected-Keeps evs))
  ]
