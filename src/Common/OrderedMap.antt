-- ===== src/Common/OrderedMap.antt =====
-- `std::map` with unsigned keys: an association list in the order of its keys.
use Prim.Native.Nat.{ℕ, suc, ◌<◌, ◌≤◌, ◌+◌}
use mathlib.Core.Path.{◌≡◌, refl, ap}
use mathlib.Core.Logic.{inl, inr}
use mathlib.Core.Bool.{false}
use mathlib.Core.List.{List, [], ◌∷◌, ◌++◌}
use mathlib.Core.Option.{Option, none, some}
use native.Mathlib.Omega.{arith}
use faser_common.Common.Tests.{ltb, ◌==◌, if◌then◌else◌, Bool-cases, ==_iff, ltb→lt, le→ltb_false}
use faser_common.Common.Lists.{length, All}

module _ {ℓ} {V : Type ℓ} where
  -- `m.find(k)`, with `none` for `m.end()`.
  unfoldable pub find : ℕ → List (ℕ × V) → Option V
  find k [] = none
  find k ((j, w) ∷ m) = if k == j then some w else find k m

  -- `m[k] = v`
  unfoldable pub insert : ℕ → V → List (ℕ × V) → List (ℕ × V)
  insert k v [] = (k, v) ∷ []
  insert k v ((j, w) ∷ m) =
      let rest = insert k v m in
      if ltb k j then (k, v) ∷ (j, w) ∷ m else if k == j then (k, v) ∷ m else (j, w) ∷ rest

  -- All keys lie above `k`.
  abbrev pub Above : ℕ → List (ℕ × V) → Type 0
  Above k = All (λ e. k < e.0)

  abbrev pub IsSorted : List (ℕ × V) → Type 0
  IsSorted [] = Unit {0}
  IsSorted ((k, v) ∷ m) = Above k m × IsSorted m

not_equal : (k j : ℕ) → j < k → (k == j) ≡ false
not_equal k j h = ground arith

module _ {ℓ} {V : Type ℓ} where
  pub find-insert :
      (k j : ℕ) (v : V) (m : List (ℕ × V))
      → find j (insert k v m) ≡ (if j == k then some v else find j m)
  unfolding find insert
  find-insert k j v [] = refl
  find-insert k j v ((i, w) ∷ m) = ground (arith, find-insert k j v m)

  Above-mono : (a b : ℕ) (m : List (ℕ × V)) → a < b → Above b m → Above a m
  Above-mono a b [] h t = tt
  Above-mono a b (e ∷ m) h t = (omega (arith, t.0), Above-mono a b m h t.1)

  -- What holds of the entries and of the new one holds of the entries after an insertion.
  pub insert-All {κ} :
      (P : ℕ × V → Type κ) (k : ℕ) (v : V) (m : List (ℕ × V))
      → P (k, v)
      → All P m
      → All P (insert k v m)
  unfolding insert
  insert-All P k v [] h t = (h, tt)
  insert-All P k v ((j, w) ∷ m) h t = elim (Bool-cases (ltb k j)) [
    | inl below ↦ rw below (h, t)
    | inr above ↦ rw above (elim (Bool-cases (k == j)) [
      | inl same ↦ rw same (h, t.1)
      | inr other ↦ rw other (t.0, insert-All P k v m h t.1)
    ])
  ]

  pub insert-IsSorted : (k : ℕ) (v : V) (m : List (ℕ × V)) → IsSorted m → IsSorted (insert k v m)
  unfolding insert
  insert-IsSorted k v [] s = (tt, tt)
  insert-IsSorted k v ((j, w) ∷ m) s = elim (Bool-cases (ltb k j)) [
    | inl below ↦ rw below ((ltb→lt k j below, Above-mono k j m (ltb→lt k j below) s.0), s)
    | inr above ↦ rw above (elim (Bool-cases (k == j)) [
      | inl same ↦ rw same (rw ((==_iff k j).0 same) s.0, s.1)
      | inr other ↦ rw other (
        insert-All (λ e. j < e.0) k v m (ground (arith, above, other)) s.0,
        insert-IsSorted k v m s.1,
      )
    ])
  ]

  All-middle {κ} :
      (P : ℕ × V → Type κ) (m more : List (ℕ × V)) (e : ℕ × V) → All P (m ++ (e ∷ more)) → P e
  All-middle P [] more e h = h.0
  All-middle P (x ∷ m) more e h = All-middle P m more e h.1

  -- A key above all others goes to the end.
  pub insert-last :
      (k : ℕ) (v : V) (m more : List (ℕ × V))
      → IsSorted (m ++ ((k, v) ∷ more))
      → insert k v m ≡ m ++ ((k, v) ∷ [])
  unfolding insert
  insert-last k v [] more s = refl
  insert-last k v ((j, w) ∷ m) more s =
      let above : j < k = All-middle (λ e. j < e.0) m more (k, v) s.0 in
      rw (le→ltb_false k j (omega arith), not_equal k j above)
        (ap (λ t. (j, w) ∷ t) (insert-last k v m more s.1))

  -- A fresh key adds its value to a sum over the values, and leaves the others.
  abbrev pub sum_values : (V → ℕ) → List (ℕ × V) → ℕ
  sum_values g [] = 0
  sum_values g ((j, w) ∷ m) = g w + sum_values g m

  pub sum_values-insert :
      (g : V → ℕ) (k : ℕ) (v : V) (m : List (ℕ × V))
      → find k m ≡ none
      → sum_values g (insert k v m) ≡ g v + sum_values g m
  unfolding insert find
  sum_values-insert g k v [] h = refl
  sum_values-insert g k v ((j, w) ∷ m) h = ground (arith, sum_values-insert g k v m)

  pub length-insert :
      (k : ℕ) (v : V) (m : List (ℕ × V)) → find k m ≡ none → length (insert k v m) ≡ suc (length m)
  unfolding insert find
  length-insert k v [] h = refl
  length-insert k v ((j, w) ∷ m) h = ground (arith, length-insert k v m)

  -- All keys lie below `k`.
  abbrev pub Below : ℕ → List (ℕ × V) → Type 0
  Below k = All (λ e. e.0 < k)

  pub Below-mono : (a b : ℕ) (m : List (ℕ × V)) → a ≤ b → Below a m → Below b m
  Below-mono a b [] h t = tt
  Below-mono a b (e ∷ m) h t = (omega (arith, t.0), Below-mono a b m h t.1)

  -- A key above all that are there goes behind them.
  pub insert-Below :
      (k : ℕ) (v : V) (m : List (ℕ × V)) → Below k m → insert k v m ≡ m ++ ((k, v) ∷ [])
  unfolding insert
  insert-Below k v [] h = refl
  insert-Below k v ((j, w) ∷ m) h =
      rw (le→ltb_false k j (omega (arith, h.0)), not_equal k j h.0)
        (ap (λ t. (j, w) ∷ t) (insert-Below k v m h.1))
