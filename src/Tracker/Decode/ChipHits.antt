-- ===== src/Tracker/Decode/ChipHits.antt =====
-- What the hits of a packet leave in a module's data: the chips' lists of hits behind them.
use faser_common.Common.{
  ℕ, ◌+◌, ◌<◌, ◌≡◌, refl, sym, ap, ◌∙◌, List, [], ◌∷◌, ◌++◌, length, true, arith,
}
use faser_common.Common.{
  ◌==◌, some, Result, ok, throw, fault, ◌>>=◌, if◌then◌else◌, append_assoc, append-nil, Bool-cases,
  inl, inr,
}
use faser_common.Common.Words.{u8}
use faser_common.Common.OrderedMap.{find}
use faser_common.Tracker.SctEvent.{SctEvent, TrackerDataException, chip_id_map, push_at, get_hits}
use faser_common.Tracker.SctEvent.Laws.{hits_after, length-push_at}

-- A module's data after a hit, and after the hits of a packet.
abbrev pub with_hit : SctEvent → ℕ → ℕ → ℕ → SctEvent
with_hit ev i strip p = record ev {
  m_hits = push_at i (u8 strip, u8 p) ev.m_hits;
  m_chip_is_valid = true;
}

abbrev pub with_hits : SctEvent → ℕ → ℕ → List ℕ → SctEvent
with_hits ev i strip [] = ev
with_hits ev i strip (p ∷ ps) = with_hits (with_hit ev i strip p) i (strip + 1) ps

-- Strips are numbered from the packet's channel on, modulo 256.
abbrev pub numbered : ℕ → List ℕ → List (ℕ × ℕ)
numbered strip [] = []
numbered strip (p ∷ ps) = (u8 strip, u8 p) ∷ numbered (strip + 1) ps

-- The hits of chip `j` after those `xs` of a packet of chip `k`.
abbrev pub hits_then :
    ℕ
    → ℕ
    → List (ℕ × ℕ)
    → Result TrackerDataException (List (ℕ × ℕ))
    → Result TrackerDataException (List (ℕ × ℕ))
hits_then j k xs old = if j == k then (old >>= λ v. ok (v ++ xs)) else old

hits_then-nil :
    (j k : ℕ) (old : Result TrackerDataException (List (ℕ × ℕ))) → old ≡ hits_then j k [] old
hits_then-nil j k old = elim (Bool-cases (j == k)) [
  | inl same ↦ keeps_all old ∙ rw same refl
  | inr other ↦ rw other refl
]
  where
    keeps_all :
        (old : Result TrackerDataException (List (ℕ × ℕ))) → old ≡ (old >>= λ v. ok (v ++ []))
    keeps_all (ok v) = ap ok (sym (append-nil v))
    keeps_all (throw e) = refl
    keeps_all fault = refl

hits_then-hits_then :
    (j k : ℕ) (x : ℕ × ℕ) (xs : List (ℕ × ℕ)) (old : Result TrackerDataException (List (ℕ × ℕ)))
    → hits_then j k xs (hits_then j k (x ∷ []) old) ≡ hits_then j k (x ∷ xs) old
hits_then-hits_then j k x xs old = elim (Bool-cases (j == k)) [
  | inl same ↦ rw same (joined old)
  | inr other ↦ rw other refl
]
  where
    joined :
        (old : Result TrackerDataException (List (ℕ × ℕ)))
        → ((old >>= λ v. ok (v ++ (x ∷ []))) >>= λ v. ok (v ++ xs))
          ≡ (old >>= λ v. ok (v ++ (x ∷ xs)))
    joined (ok v) = ap ok (append_assoc v (x ∷ []) xs)
    joined (throw e) = refl
    joined fault = refl

pub get_hits-with_hits :
    (ps : List ℕ) (ev : SctEvent) (k i strip j : ℕ)
    → find k chip_id_map ≡ some i
    → i < length ev.m_hits
    → get_hits (with_hits ev i strip ps) j ≡ hits_then j k (numbered strip ps) (get_hits ev j)
unfolding get_hits
get_hits-with_hits [] ev k i strip j found inside = hits_then-nil j k (get_hits ev j)
get_hits-with_hits (p ∷ ps) ev k i strip j found inside =
    let x : ℕ × ℕ = (u8 strip, u8 p) in
    let inside' : i < length (push_at i x ev.m_hits) =
      omega (arith, length-push_at i x ev.m_hits) in
    get_hits-with_hits ps (with_hit ev i strip p) k i (strip + 1) j found inside'
    ∙ ap (hits_then j k (numbered (strip + 1) ps)) (hits_after ev k i j x found inside)
    ∙ hits_then-hits_then j k x (numbered (strip + 1) ps) (get_hits ev j)
