-- ===== src/Filter/Ends.antt =====
-- The loop ends on every input file.
use faser_common.Common.{
  ℕ, zero, suc, ◌+◌, ◌≤◌, ◌<◌, ◌≡◌, ◌≢◌, List, [], ◌∷◌, ◌++◌, drop, length, length-drop,
}
use faser_common.Common.{
  ok, ltb, arith, Result-Cases, returned, thrown, faulted, Bool-cases, ◌&&◌, leb, inl, inr,
}
use faser_common.Daq.Event.{EventFull, EventHeader, header_of_bytes, read_event}
use faser_common.Filter.{Options, stuck, filter_loop, filter_events, skips, written}

-- An event that was read took at least its header from the stream.
pub read_event-shorter :
    (input rest : List ℕ) (ev : EventFull)
    → read_event input ≡ ok (ev, rest)
    → length rest + 44 ≤ length input
unfolding read_event
read_event-shorter input rest ev e =
    let h : EventHeader = header_of_bytes input in
    ground (arith, length-drop h.payload_size (drop 44 input), length-drop 44 input)

-- One round of the loop.
round-ends :
    (fuel : ℕ) (o : Options) (b : ℕ) (bs : List ℕ) (n : ℕ) (out : List ℕ)
    → ((rest : List ℕ) (m : ℕ) (more : List ℕ)
        → length rest < length (b ∷ bs)
        → filter_loop fuel o rest m more ≢ stuck)
    → filter_loop (suc fuel) o (b ∷ bs) n out ≢ stuck
unfolding filter_loop
round-ends fuel o b bs n out again = elim (Result-Cases (read_event (b ∷ bs))) [
  | thrown x r ↦ rw (r, filter_loop) (λ e. cc)
  | faulted r ↦ rw (r, filter_loop) (λ e. cc)
  | returned (ev, rest) r ↦
      let shorter : length rest < length (b ∷ bs) =
        omega (arith, read_event-shorter (b ∷ bs) rest ev r) in
      elim (Bool-cases (skips o ev)) [
        | inl skip ↦ rw (r, skip, filter_loop) (again rest n out shorter)
        | inr keep ↦ elim (Result-Cases (written ev)) [
          | thrown x w ↦ rw (r, keep, w, filter_loop) (λ e. cc)
          | faulted w ↦ rw (r, keep, w, filter_loop) (λ e. cc)
          | returned bytes w ↦
              elim (Bool-cases (ltb 0 o.n_events_max && leb o.n_events_max (n + 1))) [
                | inl full ↦ rw (r, keep, w, full, filter_loop) (λ e. cc)
                | inr open_ ↦
                    rw (r, keep, w, open_, filter_loop) (again rest (n + 1) (out ++ bytes) shorter)
              ]
        ]
      ]
]

filter_loop-ne-stuck :
    (fuel : ℕ) (o : Options) (input : List ℕ) (n : ℕ) (out : List ℕ)
    → length input ≤ fuel
    → filter_loop fuel o input n out ≢ stuck
filter_loop-ne-stuck fuel o [] n out h = unfold filter_loop in λ e. cc
filter_loop-ne-stuck zero o (b ∷ bs) n out h = absurd (omega arith)
filter_loop-ne-stuck (suc fuel) o (b ∷ bs) n out h =
    round-ends fuel o b bs n out
      (λ rest m more shorter. filter_loop-ne-stuck fuel o rest m more (omega arith))

-- The program comes to an end on every input, well formed or not: it returns 0 or 1, or overruns
-- a buffer, but it never reads on for ever.
pub filter_events-ne-stuck : (o : Options) (input old : List ℕ) → filter_events o input old ≢ stuck
unfolding filter_events
filter_events-ne-stuck o input old = filter_loop-ne-stuck (length input) o input 0 old (omega arith)
