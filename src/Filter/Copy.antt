-- ===== src/Filter/Copy.antt =====
-- What the program writes for a file of well-formed events.
use faser_common.Common.{ℕ, zero, suc, ◌+◌, ◌-◌, ◌≤◌, ◌<◌, ◌≡◌, sym, ap, ◌∙◌, inl, inr}
use faser_common.Common.{
  List, [], ◌∷◌, ◌++◌, append_assoc, append-nil, length, length-append, take, take-nil, take_all,
  All, Bool, true, false,
}
use faser_common.Common.{ltb, leb, ◌&&◌, if◌then◌else◌, Bool-cases, ok, arith}
use faser_common.Common.Bytes.{load_bytes, load_bytes-in_range}
use faser_common.Daq.Event.{EventFull, IsEvent, raw, read_event}
use faser_common.Daq.Event.RoundTrip.{size_of-raw, read_event-raw, length-raw}
use faser_common.Filter.{Options, finished, filter_loop, filter_events, skips, written}

-- A file of events.
abbrev pub file_of : List EventFull → List ℕ
file_of [] = []
file_of (ev ∷ evs) = raw ev ++ file_of evs

-- An event that the reader accepts.
abbrev pub IsReadable : EventFull → Type 0
IsReadable ev = IsEvent ev × (ev.header.payload_size ≤ 1000000)

-- The events that the settings choose.
unfoldable pub selected : Options → List EventFull → List EventFull
selected o [] = []
selected o (ev ∷ evs) = let rest = selected o evs in if skips o ev then rest else ev ∷ rest

-- The first `n` of them, where a limit is set.
unfoldable pub limited : Options → List EventFull → List EventFull
limited o evs = if ltb 0 o.n_events_max then take o.n_events_max evs else evs

written-raw : (ev : EventFull) → IsReadable ev → written ev ≡ ok (raw ev)
unfolding written
written-raw ev (v, small) =
    ap (λ n. load_bytes (raw ev) 0 n) (size_of-raw ev [] v (omega arith))
    ∙ load_bytes-in_range (raw ev) 0 (length (raw ev)) (omega arith)
    ∙ ap ok (take_all (raw ev))

sub_zero : (k : ℕ) → k - 0 ≡ k
sub_zero k = omega arith

-- What may still be written after `n` events.
abbrev budget : Options → ℕ → List EventFull → List EventFull
budget o n evs = if ltb 0 o.n_events_max then take (o.n_events_max - n) evs else evs

-- The limit is not reached.
abbrev HasRoom : Options → ℕ → Type 0
HasRoom o n = 0 < o.n_events_max → n < o.n_events_max

abbrev is_full : Options → ℕ → Bool
is_full o n = ltb 0 o.n_events_max && leb o.n_events_max (n + 1)

take_one : (k : ℕ) (ev : EventFull) (evs : List EventFull) → k ≡ 1 → take k (ev ∷ evs) ≡ ev ∷ []
take_one k ev evs e = rw e

take_next :
    (k j : ℕ) (ev : EventFull) (evs : List EventFull)
    → k ≡ suc j
    → take k (ev ∷ evs) ≡ ev ∷ take j evs
take_next k j ev evs e = rw e

module _ (o : Options) (n : ℕ) (ev : EventFull) (evs : List EventFull) (room : HasRoom o n) where
  budget-full : is_full o n ≡ true → budget o n (ev ∷ evs) ≡ ev ∷ []
  budget-full full = ground (arith, room, take_one (o.n_events_max - n) ev evs)

  budget-open : is_full o n ≡ false → budget o n (ev ∷ evs) ≡ ev ∷ budget o (n + 1) evs
  budget-open open_ =
      ground (arith, room, take_next (o.n_events_max - n) (o.n_events_max - (n + 1)) ev evs)

  room-open : is_full o n ≡ false → HasRoom o (n + 1)
  room-open open_ some_limit = ground arith

-- A round on an event that is skipped, on one with which the limit is reached, and on any other.
round-skip :
    (fuel : ℕ) (o : Options) (input rest : List ℕ) (ev : EventFull) (n : ℕ) (out : List ℕ)
    → 0 < length input
    → read_event input ≡ ok (ev, rest)
    → skips o ev ≡ true
    → filter_loop (suc fuel) o input n out ≡ filter_loop fuel o rest n out
unfolding filter_loop
round-skip fuel o [] rest ev n out p r skip = absurd (omega arith)
round-skip fuel o (b ∷ bs) rest ev n out p r skip = rw (r, skip, filter_loop)

round-full :
    (fuel : ℕ) (o : Options) (input rest bytes : List ℕ) (ev : EventFull) (n : ℕ) (out : List ℕ)
    → 0 < length input
    → read_event input ≡ ok (ev, rest)
    → skips o ev ≡ false
    → written ev ≡ ok bytes
    → is_full o n ≡ true
    → filter_loop (suc fuel) o input n out ≡ finished (out ++ bytes)
unfolding filter_loop
round-full fuel o [] rest bytes ev n out p r keep w full = absurd (omega arith)
round-full fuel o (b ∷ bs) rest bytes ev n out p r keep w full = rw (r, keep, w, full, filter_loop)

round-open :
    (fuel : ℕ) (o : Options) (input rest bytes : List ℕ) (ev : EventFull) (n : ℕ) (out : List ℕ)
    → 0 < length input
    → read_event input ≡ ok (ev, rest)
    → skips o ev ≡ false
    → written ev ≡ ok bytes
    → is_full o n ≡ false
    → filter_loop (suc fuel) o input n out ≡ filter_loop fuel o rest (n + 1) (out ++ bytes)
unfolding filter_loop
round-open fuel o [] rest bytes ev n out p r keep w open_ = absurd (omega arith)
round-open fuel o (b ∷ bs) rest bytes ev n out p r keep w open_ =
    rw (r, keep, w, open_, filter_loop)

selected-skip :
    (o : Options) (ev : EventFull) (evs : List EventFull)
    → skips o ev ≡ true
    → selected o (ev ∷ evs) ≡ selected o evs
unfolding selected
selected-skip o ev evs skip = rw skip

selected-keep :
    (o : Options) (ev : EventFull) (evs : List EventFull)
    → skips o ev ≡ false
    → selected o (ev ∷ evs) ≡ ev ∷ selected o evs
unfolding selected
selected-keep o ev evs keep = rw keep

chosen-full :
    (o : Options) (n : ℕ) (ev : EventFull) (evs : List EventFull)
    → HasRoom o n
    → skips o ev ≡ false
    → is_full o n ≡ true
    → budget o n (selected o (ev ∷ evs)) ≡ ev ∷ []
chosen-full o n ev evs room keep full =
    ap (budget o n) (selected-keep o ev evs keep) ∙ budget-full o n ev (selected o evs) room full

chosen-open :
    (o : Options) (n : ℕ) (ev : EventFull) (evs : List EventFull)
    → HasRoom o n
    → skips o ev ≡ false
    → is_full o n ≡ false
    → budget o n (selected o (ev ∷ evs)) ≡ ev ∷ budget o (n + 1) (selected o evs)
chosen-open o n ev evs room keep open_ =
    ap (budget o n) (selected-keep o ev evs keep) ∙ budget-open o n ev (selected o evs) room open_

budget-nil : (o : Options) (n : ℕ) → budget o n [] ≡ []
budget-nil o n = elim (Bool-cases (ltb 0 o.n_events_max)) [
  | inl some_limit ↦ rw (some_limit, take-nil (o.n_events_max - n))
  | inr no_limit ↦ rw no_limit
]

file-longer :
    (ev : EventFull) (evs : List EventFull) → length (file_of evs) < length (file_of (ev ∷ evs))
file-longer ev evs = omega (arith, length-append (raw ev) (file_of evs), length-raw ev)

filter_loop-file_of :
    (evs : List EventFull) (fuel : ℕ) (o : Options) (n : ℕ) (out : List ℕ)
    → All IsReadable evs
    → length (file_of evs) ≤ fuel
    → HasRoom o n
    → filter_loop fuel o (file_of evs) n out
      ≡ finished (out ++ file_of (budget o n (selected o evs)))
filter_loop-file_of [] fuel o n out v h room =
    unfold filter_loop selected in rw (budget-nil o n, append-nil out)
filter_loop-file_of (ev ∷ evs) zero o n out v h room = absurd (omega (arith, file-longer ev evs))
filter_loop-file_of (ev ∷ evs) (suc fuel) o n out v h room =
    let there : 0 < length (raw ev ++ file_of evs) = omega (arith, file-longer ev evs) in
    let r : read_event (raw ev ++ file_of evs) ≡ ok (ev, file_of evs) =
      read_event-raw ev (file_of evs) v.0.0 v.0.1 in
    let shorter : length (file_of evs) ≤ fuel = omega (arith, file-longer ev evs) in
    elim (Bool-cases (skips o ev)) [
      | inl skip ↦
          round-skip fuel o (raw ev ++ file_of evs) (file_of evs) ev n out there r skip
          ∙ filter_loop-file_of evs fuel o n out v.1 shorter room
          ∙ ap (λ t. finished (out ++ file_of (budget o n t))) (sym (selected-skip o ev evs skip))
      | inr keep ↦ elim (Bool-cases (is_full o n)) [
        | inl full ↦
            round-full fuel o (raw ev ++ file_of evs) (file_of evs) (raw ev) ev n out there r keep
              (written-raw ev v.0) full
            ∙ ap (λ t. finished (out ++ t)) (sym (append-nil (raw ev)))
            ∙ ap (λ t. finished (out ++ file_of t)) (sym (chosen-full o n ev evs room keep full))
        | inr open_ ↦
            round-open fuel o (raw ev ++ file_of evs) (file_of evs) (raw ev) ev n out there r keep
              (written-raw ev v.0) open_
            ∙ filter_loop-file_of evs fuel o (n + 1) (out ++ raw ev) v.1 shorter
                (room-open o n ev evs room open_)
            ∙ ap finished (append_assoc out (raw ev) _)
            ∙ ap (λ t. finished (out ++ file_of t)) (sym (chosen-open o n ev evs room keep open_))
      ]
    ]

budget-limited : (o : Options) (evs : List EventFull) → budget o 0 evs ≡ limited o evs
unfolding limited
budget-limited o evs =
    ap (λ k. if ltb 0 o.n_events_max then take k evs else evs) (sub_zero o.n_events_max)

-- On a file of well-formed events within the reader's limit the program returns 0, and behind what
-- the output held before stand the bytes of the events that the settings choose, in the order of
-- the file, and no more than the limit, if there is one.
pub filter_events-file_of :
    (o : Options) (evs : List EventFull) (old : List ℕ)
    → All IsReadable evs
    → filter_events o (file_of evs) old ≡ finished (old ++ file_of (limited o (selected o evs)))
unfolding filter_events
filter_events-file_of o evs old v =
    filter_loop-file_of evs (length (file_of evs)) o 0 old v (omega arith) (λ positive. positive)
    ∙ ap (λ t. finished (old ++ file_of t)) (budget-limited o (selected o evs))
