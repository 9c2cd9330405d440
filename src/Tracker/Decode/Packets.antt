-- ===== src/Tracker/Decode/Packets.antt =====
-- What the packets do to a module's data: no exception, no null pointer, and enough rounds.
use faser_common.Common.{
  ℕ, ◌^◌, ◌<◌, ◌≡◌, refl, sym, subst, ◌∙◌, List, length, true, false, Bool, Bool-cases, inl, inr,
}
use faser_common.Common.{some, Option-cases, ok}
use faser_common.Common.Words.{u8}
use faser_common.Common.OrderedMap.{find}
use faser_common.Tracker.SctEvent.{
  SctEvent, chip_id_map, chip_address, chip_is_valid, add_error, push_at,
}
use faser_common.Tracker.SctEvent.Laws.{
  IsSctEvent, add_hit-found, length-push_at, chip_is_valid-index,
}
use faser_common.Tracker.Decode.{
  Decoded, returns, throws, overrun, null_pointer, no_fuel, ◌>>=◌, error_of_chip, hit_of_chip,
}

-- The code returns, and its result has the property.
abbrev pub Returns {ℓ} : {A : Type ℓ} → Decoded A → (A → Type 0) → Type 0
Returns (returns x) P = P x
Returns (throws e) P = ⊥
Returns overrun P = ⊥
Returns null_pointer P = ⊥
Returns no_fuel P = ⊥

pub Returns-bind {ℓ κ} :
    {A : Type ℓ} {B : Type κ} (d : Decoded A) (f : A → Decoded B) (P : A → Type 0) (Q : B → Type 0)
    → Returns d P
    → ((x : A) → P x → Returns (f x) Q)
    → Returns (d >>= f) Q
Returns-bind (returns x) f P Q h k = k x h
Returns-bind (throws e) f P Q h k = absurd h
Returns-bind overrun f P Q h k = absurd h
Returns-bind null_pointer f P Q h k = absurd h
Returns-bind no_fuel f P Q h k = absurd h

pub Returns-weaker {ℓ} :
    {A : Type ℓ} (d : Decoded A) (P Q : A → Type 0)
    → Returns d P
    → ((x : A) → P x → Q x)
    → Returns d Q
Returns-weaker (returns x) P Q h k = k x h
Returns-weaker (throws e) P Q h k = absurd h
Returns-weaker overrun P Q h k = absurd h
Returns-weaker null_pointer P Q h k = absurd h
Returns-weaker no_fuel P Q h k = absurd h

pub Returns-moved {ℓ} :
    {A : Type ℓ} (d d' : Decoded A) (P : A → Type 0) → d ≡ d' → Returns d' P → Returns d P
Returns-moved d d' P e h = subst (λ t. Returns t P) (sym e) h

-- The data of module `k`: twelve chips, numbers within their fields, and no mismatch seen.
pub record IsDecoded (k : ℕ) (ev : SctEvent) : Type 0 where
  pub chips : IsSctEvent ev
  pub module_fits : ev.m_module_id ≡ u8 k
  pub l1id_fits : ev.m_l1id < 2 ^ 4
  pub bcid_fits : ev.m_bcid < 2 ^ 8
  pub no_mismatch : ev.m_bcid_mismatch ≡ false

-- A change of the hits, the errors and the flags.
changed :
    (k : ℕ) (ev : SctEvent) (hits : List (List (ℕ × ℕ))) (errors : List (List ℕ))
    (complete missing has_error is_valid : Bool)
    → IsDecoded k ev
    → length hits ≡ 12
    → length errors ≡ 12
    → IsDecoded k record ev {
      m_hits = hits;
      m_errors = errors;
      m_complete = complete;
      m_missing_data = missing;
      m_has_error = has_error;
      m_chip_is_valid = is_valid;
    }
changed k ev hits errors complete missing has_error is_valid v h h' = record {
  chips = record { twelve_hits = h; twelve_errors = h' };
  module_fits = v.module_fits;
  l1id_fits = v.l1id_fits;
  bcid_fits = v.bcid_fits;
  no_mismatch = v.no_mismatch;
}

module _ (k : ℕ) (ev : SctEvent) (chip : ℕ) (v : IsDecoded k ev) where
  twelve_hits_of : length ev.m_hits ≡ 12
  twelve_hits_of = v.chips.twelve_hits

  twelve_errors_of : length ev.m_errors ≡ 12
  twelve_errors_of = v.chips.twelve_errors

  chip_is_valid-IsDecoded : IsDecoded k (chip_is_valid ev chip).1
  unfolding chip_is_valid
  chip_is_valid-IsDecoded = elim (Option-cases (find (chip_address chip) chip_id_map)) [
    | inl e ↦
        rw (chip_is_valid, e)
          (changed k ev ev.m_hits ev.m_errors false true ev.m_has_error false v twelve_hits_of
            twelve_errors_of)
    | inr (i, e) ↦
        rw (chip_is_valid, e)
          (changed k ev ev.m_hits ev.m_errors ev.m_complete ev.m_missing_data ev.m_has_error true v
            twelve_hits_of twelve_errors_of)
  ]

  add_error-found :
      (err i : ℕ)
      → find (chip_address chip) chip_id_map ≡ some i
      → add_error ev chip err
        ≡ (record ev { m_has_error = true; m_errors = push_at i (u8 err) ev.m_errors }, ok tt)
  unfolding add_error
  add_error-found err i e = rw (add_error, e) refl

  with_error :
      (err i : ℕ)
      → IsDecoded k record ev { m_has_error = true; m_errors = push_at i (u8 err) ev.m_errors }
  with_error err i =
      changed k ev ev.m_hits (push_at i (u8 err) ev.m_errors) ev.m_complete ev.m_missing_data true
        ev.m_chip_is_valid v twelve_hits_of
        (length-push_at i (u8 err) ev.m_errors ∙ twelve_errors_of)

  with_hit : (x : ℕ × ℕ) (i : ℕ) → IsDecoded k record ev { m_hits = push_at i x ev.m_hits }
  with_hit x i =
      changed k ev (push_at i x ev.m_hits) ev.m_errors ev.m_complete ev.m_missing_data
        ev.m_has_error ev.m_chip_is_valid v (length-push_at i x ev.m_hits ∙ twelve_hits_of)
        twelve_errors_of

module _ (k : ℕ) (ev : SctEvent) (chip : ℕ) (v : IsDecoded k ev) where
  pub error_of_chip-Returns : (err : ℕ) → Returns (error_of_chip ev chip err) (IsDecoded k)
  unfolding error_of_chip
  error_of_chip-Returns err = elim (Bool-cases (chip_is_valid ev chip).0) [
    | inl valid ↦
        let (i, found, small) = chip_is_valid-index ev chip valid in
        rw
          (
            error_of_chip,
            valid,
            add_error-found k (chip_is_valid ev chip).1 chip (chip_is_valid-IsDecoded k ev chip v)
                err i found,
          )
          (with_error k (chip_is_valid ev chip).1 chip (chip_is_valid-IsDecoded k ev chip v) err i)
    | inr refused ↦ rw (error_of_chip, refused) (chip_is_valid-IsDecoded k ev chip v)
  ]

  pub hit_of_chip-Returns :
      (strip pattern : ℕ) → Returns (hit_of_chip ev chip strip pattern) (IsDecoded k)
  unfolding hit_of_chip
  hit_of_chip-Returns strip pattern = elim (Bool-cases (chip_is_valid ev chip).0) [
    | inl valid ↦
        let (i, found, small) = chip_is_valid-index ev chip valid in
        rw (hit_of_chip, valid, add_hit-found (chip_is_valid ev chip).1 chip strip pattern i found)
          (with_hit k (chip_is_valid ev chip).1 chip (chip_is_valid-IsDecoded k ev chip v)
            (u8 strip, u8 pattern) i)
    | inr refused ↦ rw (hit_of_chip, refused) (chip_is_valid-IsDecoded k ev chip v)
  ]
