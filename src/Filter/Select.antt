-- ===== src/Filter/Select.antt =====
-- Which events the loop passes over.
use faser_common.Common.{
  ℕ, ◌≡◌, ◌≢◌, ◌⊎◌, ◌↔◌, inl, inr, refl, List, [], ◌∷◌, Bool, true, false, not, ◌&&◌, ◌||◌, arith,
}
use faser_common.Common.{◌==◌, ==_iff, ltb, bit_and, Bool-cases}
use faser_common.Daq.Event.{EventFull}
use faser_common.Filter.{Options, contains, is_empty, skips}

-- A number stands in a list.
abbrev pub IsIn : ℕ → List ℕ → Type 0
IsIn n [] = ⊥
IsIn n (x ∷ xs) = (x ≡ n) ⊎ IsIn n xs

contains_iff : (xs : List ℕ) (n : ℕ) → (contains xs n ≡ true) ↔ IsIn n xs
unfolding contains
contains_iff [] n = (λ h. cc, λ h. absurd h)
contains_iff (x ∷ xs) n =
    let rest = contains_iff xs n in
    elim (Bool-cases (x == n)) [
      | inl same ↦ (λ h. inl ((==_iff x n).0 same), λ h. rw same refl)
      | inr other ↦ rw other (
        λ h. inr (rest.0 h),
        λ h. elim h [ inl e ↦ cc (other, (==_iff x n).1 e) | inr more ↦ rest.1 more ],
      )
    ]

is_empty_iff : (xs : List ℕ) → (is_empty xs ≡ true) ↔ (xs ≡ [])
is_empty_iff [] = (λ h. refl, λ h. refl)
is_empty_iff (x ∷ xs) = (λ h. absurd cc, λ h. absurd cc)

neither : (a b : Bool) → ((a || b) ≡ false) ↔ ((a ≡ false) × (b ≡ false))
neither true b = (λ h. absurd cc, λ h. h.0)
neither false b = (λ h. (refl, h), λ h. h.1)

one_of : (a b : Bool) → ((not a && not b) ≡ false) ↔ ((a ≡ true) ⊎ (b ≡ true))
one_of true b = (λ h. inl refl, λ h. refl)
one_of false true = (λ h. inr refl, λ h. refl)
one_of false false = (λ h. absurd cc, λ h. elim h [ inl e ↦ cc e | inr e ↦ cc e ])

no_common_bit :
    (mask common : ℕ) → ((ltb 0 mask && (common == 0)) ≡ false) ↔ ((mask ≡ 0) ⊎ (common ≢ 0))
no_common_bit mask common = ground arith

-- An event is taken exactly if its number is in the list of events, if there is one, and its
-- trigger bits have one in common with the mask, if that is not zero.
pub skips_iff :
    (o : Options) (ev : EventFull)
    → (skips o ev ≡ false) ↔ (
        ((o.event_list ≡ []) ⊎ IsIn ev.header.event_counter o.event_list)
        × ((o.mask ≡ 0) ⊎ (bit_and ev.header.trigger_bits o.mask ≢ 0)))
unfolding skips
skips_iff o ev =
    let listed = contains_iff o.event_list ev.header.event_counter in
    let none_given = is_empty_iff o.event_list in
    let number = one_of (is_empty o.event_list) (contains o.event_list ev.header.event_counter) in
    let bits = no_common_bit o.mask (bit_and ev.header.trigger_bits o.mask) in
    let both = neither _ _ in
    (
      λ h. (
        elim (number.0 (both.0 h).0) [ inl e ↦ inl (none_given.0 e) | inr e ↦ inr (listed.0 e) ],
        bits.0 (both.0 h).1,
      ),
      λ h. both.1 (
        number.1 (elim h.0 [ inl e ↦ inl (none_given.1 e) | inr e ↦ inr (listed.1 e) ]),
        bits.1 h.1,
      ),
    )
