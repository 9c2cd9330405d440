-- ===== src/Tracker/SctEvent/Laws.antt =====
-- What the operations on a module's data do to what its getters return.
use faser_common.Common.{
  ℕ, zero, suc, ◌+◌, ◌<◌, ◌≡◌, refl, ap, ◌∙◌, List, [], ◌∷◌, ◌++◌, true, false, arith, inl, inr,
}
use faser_common.Common.{
  Option-cases, ltb, ◌==◌, ==_iff, Bool-cases, if◌then◌else◌, length, length-append, none, some, ok,
  throw, ◌>>=◌,
}
use faser_common.Common.Words.{u8}
use faser_common.Common.OrderedMap.{find}
use faser_common.Tracker.SctEvent.{
  SctEvent, unknown_chip, chip_id_map, chip_address, push_at, vector_at, add_hit, chip_is_valid,
  get_hits, get_n_hits_all,
}

-- A module has twelve chips.
pub record IsSctEvent (ev : SctEvent) : Type 0 where
  pub twelve_hits : length ev.m_hits ≡ 12
  pub twelve_errors : length ev.m_errors ≡ 12

-- The chip of an index.
abbrev chip_of : ℕ → ℕ
chip_of i = if ltb i 6 then 0x20 + i else 0x22 + i

pub find-chip_of : (k i : ℕ) → find k chip_id_map ≡ some i → (k ≡ chip_of i) × (i < 12)
unfolding find
find-chip_of k i e = ground arith

pub vector_at-push_at {ℓ} :
    {A : Type ℓ} (i j : ℕ) (x : A) (vs : List (List A))
    → i < length vs
    → vector_at j (push_at i x vs) ≡ (if j == i then vector_at j vs ++ (x ∷ []) else vector_at j vs)
unfolding push_at
vector_at-push_at i j x [] h = absurd (omega arith)
vector_at-push_at zero zero x (v ∷ vs) h = refl
vector_at-push_at zero (suc j) x (v ∷ vs) h = ground arith
vector_at-push_at (suc i) zero x (v ∷ vs) h = ground arith
vector_at-push_at (suc i) (suc j) x (v ∷ vs) h =
    let same : (suc j == suc i) ≡ (j == i) = ground arith in
    vector_at-push_at i j x vs (omega arith) ∙ rw same refl

pub length-push_at {ℓ} :
    {A : Type ℓ} (i : ℕ) (x : A) (vs : List (List A)) → length (push_at i x vs) ≡ length vs
unfolding push_at
length-push_at i x [] = refl
length-push_at zero x (v ∷ vs) = refl
length-push_at (suc i) x (v ∷ vs) = ap suc (length-push_at i x vs)

pub get_n_hits_all-push_at {ℓ} :
    {A : Type ℓ} (i : ℕ) (x : A) (vs : List (List A))
    → i < length vs
    → get_n_hits_all (push_at i x vs) ≡ suc (get_n_hits_all vs)
unfolding push_at get_n_hits_all
get_n_hits_all-push_at i x [] h = absurd (omega arith)
get_n_hits_all-push_at zero x (v ∷ vs) h = omega (arith, length-append v (x ∷ []))
get_n_hits_all-push_at (suc i) x (v ∷ vs) h =
    omega (arith, get_n_hits_all-push_at i x vs (omega arith))

-- A chip that the test accepts has an index, below twelve.
pub chip_is_valid-index :
    (ev : SctEvent) (chip : ℕ)
    → (chip_is_valid ev chip).0 ≡ true
    → (i : ℕ) × (find (chip_address chip) chip_id_map ≡ some i) × (i < 12)
unfolding chip_is_valid
chip_is_valid-index ev chip h = elim (Option-cases (find (chip_address chip) chip_id_map)) [
  | inl missing ↦ cc (rejected missing, h)
  | inr (i, found) ↦ (i, found, (find-chip_of (chip_address chip) i found).1)
]
  where
    rejected : find (chip_address chip) chip_id_map ≡ none → (chip_is_valid ev chip).0 ≡ false
    rejected e = rw (chip_is_valid, e) refl

-- One more entry in the vector of a chip, seen through the map of the chips.
entries-push_at {ℓ} :
    {A : Type ℓ} (k j i n : ℕ) (x : A) (vs : List (List A))
    → find k chip_id_map ≡ some i
    → find j chip_id_map ≡ some n
    → i < length vs
    → vector_at n (push_at i x vs) ≡ (if j == k then vector_at n vs ++ (x ∷ []) else vector_at n vs)
entries-push_at k j i n x vs ek ej h =
    let pk = find-chip_of k i ek in
    let pj = find-chip_of j n ej in
    let same : (j == k) ≡ (n == i) = ground (arith, pk, pj) in
    vector_at-push_at i n x vs h ∙ rw same refl

module _ (ev : SctEvent) (chip : ℕ) where
  pub add_hit-found :
      (strip pattern i : ℕ)
      → find (chip_address chip) chip_id_map ≡ some i
      → add_hit ev chip strip pattern
        ≡ (record ev { m_hits = push_at i (u8 strip, u8 pattern) ev.m_hits }, ok tt)
  unfolding add_hit
  add_hit-found strip pattern i e = rw (add_hit, e) refl

  add_hit-missing :
      (strip pattern : ℕ)
      → find (chip_address chip) chip_id_map ≡ none
      → add_hit ev chip strip pattern
        ≡ (record ev { m_complete = false; m_missing_data = true }, throw unknown_chip)
  unfolding add_hit
  add_hit-missing strip pattern e = rw (add_hit, e) refl

  get_hits-found :
      (n : ℕ) → find chip chip_id_map ≡ some n → get_hits ev chip ≡ ok (vector_at n ev.m_hits)
  unfolding get_hits
  get_hits-found n e = rw (get_hits, e) refl

  get_hits-missing : find chip chip_id_map ≡ none → get_hits ev chip ≡ throw unknown_chip
  unfolding get_hits
  get_hits-missing e = rw (get_hits, e) refl

  -- A chip that the test refuses has no index.
  pub chip_is_valid-none :
      (chip_is_valid ev chip).0 ≡ false → find (chip_address chip) chip_id_map ≡ none
  unfolding chip_is_valid
  chip_is_valid-none h = elim (Option-cases (find (chip_address chip) chip_id_map)) [
    | inl missing ↦ missing
    | inr (i, found) ↦ cc (accepted i found, h)
  ]
    where
      accepted :
          (i : ℕ) → find (chip_address chip) chip_id_map ≡ some i → (chip_is_valid ev chip).0 ≡ true
      accepted i e = rw (chip_is_valid, e) refl

-- The hits of a chip after one more hit.
pub hits_after :
    (ev : SctEvent) (k i j : ℕ) (x : ℕ × ℕ)
    → find k chip_id_map ≡ some i
    → i < length ev.m_hits
    → get_hits (record ev { m_hits = push_at i x ev.m_hits }) j
      ≡ (if j == k then (get_hits ev j >>= λ v. ok (v ++ (x ∷ []))) else get_hits ev j)
hits_after ev k i j x found inside = elim (Option-cases (find j chip_id_map)) [
  | inl missing ↦
      let other : (j == k) ≡ false = elim (Bool-cases (j == k)) [
        | inl same ↦ cc ((==_iff j k).0 same, missing, found)
        | inr ne ↦ ne
      ] in
      rw
        (
          other,
          get_hits-missing (record ev { m_hits = push_at i x ev.m_hits }) j missing,
          get_hits-missing ev j missing,
        )
        refl
  | inr (n, known) ↦
      get_hits-found (record ev { m_hits = push_at i x ev.m_hits }) j n known
      ∙ ap ok (entries-push_at k j i n x ev.m_hits found known inside)
      ∙ elim (Bool-cases (j == k)) [
        | inl same ↦ rw (same, get_hits-found ev j n known) refl
        | inr other ↦ rw (other, get_hits-found ev j n known) refl
      ]
]

-- A hit on a chip that the test accepts goes behind that chip's hits and nowhere else; a chip that
-- the test refuses makes `AddHit` throw, and leaves all hits.
pub get_hits-add_hit :
    (ev : SctEvent) (chip strip pattern : ℕ)
    → IsSctEvent ev
    → ((chip_is_valid ev chip).0 ≡ true
        → ((add_hit ev chip strip pattern).1 ≡ ok tt)
          × (get_n_hits_all (add_hit ev chip strip pattern).0.m_hits
              ≡ suc (get_n_hits_all ev.m_hits))
          × ((j : ℕ)
              → get_hits (add_hit ev chip strip pattern).0 j ≡ (
                  if j == chip_address chip
                  then (get_hits ev j >>= λ v. ok (v ++ ((u8 strip, u8 pattern) ∷ [])))
                  else get_hits ev j)))
      × ((chip_is_valid ev chip).0 ≡ false
          → ((add_hit ev chip strip pattern).1 ≡ throw unknown_chip)
            × ((add_hit ev chip strip pattern).0.m_hits ≡ ev.m_hits))
get_hits-add_hit ev chip strip pattern v = (
  λ valid.
      let (i, found, small) = chip_is_valid-index ev chip valid in
      let inside : i < length ev.m_hits = omega (arith, v.twelve_hits) in
      let added = add_hit-found ev chip strip pattern i found in
      let x : ℕ × ℕ = (u8 strip, u8 pattern) in
      (
        ap (λ r. r.1) added,
        ap (λ r. get_n_hits_all r.0.m_hits) added ∙ get_n_hits_all-push_at i x ev.m_hits inside,
        λ j. ap (λ r. get_hits r.0 j) added ∙ hits_after ev (chip_address chip) i j x found inside,
      ),
  λ refused.
      let thrown = add_hit-missing ev chip strip pattern (chip_is_valid-none ev chip refused) in
      (ap (λ r. r.1) thrown, ap (λ r. r.0.m_hits) thrown),
)
