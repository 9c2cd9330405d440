-- ===== src/Dump/Ends.antt =====
-- The dump ends on every input file.
use faser_common.Common.{
  ℕ, zero, suc, ◌+◌, ◌≤◌, ◌≡◌, ◌≢◌, refl, List, [], ◌∷◌, length, Bool, true, false, if◌then◌else◌,
  Bool-cases, inl, inr, arith,
}
use faser_common.Common.{
  Result, ok, throw, fault, Result-Cases, returned, thrown, faulted, Option-cases,
}
use faser_common.Daq.Fragment.{EventFragment}
use faser_common.Daq.Event.{EventFull, read_event, get_fragment_ids, find_fragment}
use faser_common.TlbData as Tlb
use faser_common.TlbMonitoring as Monitoring
use faser_common.Digitizer.{decode_digitizer}
use faser_common.Bobr as Bobr
use faser_common.Tracker.Decode.{
  Decoded, returns, throws, overrun, null_pointer, no_fuel, make_tracker_data_fragment,
}
use faser_common.Tracker.Decode.Whole.{make_tracker_data_fragment-ne-no_fuel}
use faser_common.Filter.Ends.{read_event-shorter}
use faser_common.Dump.{
  DumpOptions, DumpException, tlb_thrown, tlb_monitoring_thrown, digitizer_thrown, bobr_thrown,
  Shown, shown, escaped, undefined_access, endless, and_then, printed, printed_tracker, Decoder,
  tlb_data, tlb_monitoring, tracker, digitizer, bobr, hex_words, nothing, decoder_of,
  decode_payload, dump_fragment, dump_fragments, stuck, is_last, dump_event, dump_loop, dump_events,
}

-- To split on what was shown, and keep the equation.
data ShownCase (s : Shown) : Type 0 where
  was_shown : s ≡ shown → ShownCase s
  was_escaped : (e : DumpException) → s ≡ escaped e → ShownCase s
  was_undefined : s ≡ undefined_access → ShownCase s
  was_endless : s ≡ endless → ShownCase s

Shown-cases : (s : Shown) → ShownCase s
Shown-cases shown = was_shown refl
Shown-cases (escaped e) = was_escaped e refl
Shown-cases undefined_access = was_undefined refl
Shown-cases endless = was_endless refl

and_then-ne-endless : (s t : Shown) → s ≢ endless → t ≢ endless → and_then s t ≢ endless
and_then-ne-endless shown t h k = k
and_then-ne-endless (escaped e) t h k = h
and_then-ne-endless undefined_access t h k = h
and_then-ne-endless endless t h k = h

printed-ne-endless {ℓ κ} :
    {E : Type ℓ} {A : Type κ} (wrap : E → DumpException) (r : Result E A) → printed wrap r ≢ endless
printed-ne-endless wrap (ok a) = λ h. cc
printed-ne-endless wrap (throw e) = λ h. cc
printed-ne-endless wrap fault = λ h. cc

if-ne-endless : (b : Bool) (s : Shown) → s ≢ endless → (if b then s else shown) ≢ endless
if-ne-endless true s h = h
if-ne-endless false s h = λ e. cc

printed_tracker-ne-endless {ℓ} :
    {A : Type ℓ} (d : Decoded A) → d ≢ no_fuel → printed_tracker d ≢ endless
printed_tracker-ne-endless (returns a) h = λ e. cc
printed_tracker-ne-endless (throws x) h = λ e. cc
printed_tracker-ne-endless overrun h = λ e. cc
printed_tracker-ne-endless null_pointer h = λ e. cc
printed_tracker-ne-endless no_fuel h = absurd (h refl)

module _ (junk : ℕ) (stale : Bool) (o : DumpOptions) where
  -- Each decoder ends on each payload.
  decode_payload-ne-endless :
      (d : Decoder) (buf : List ℕ) (size : ℕ) → decode_payload junk stale d buf size ≢ endless
  unfolding decode_payload
  decode_payload-ne-endless tlb_data buf size =
      printed-ne-endless tlb_thrown (Tlb.make_fragment junk stale buf size)
  decode_payload-ne-endless tlb_monitoring buf size =
      printed-ne-endless tlb_monitoring_thrown (Monitoring.make_fragment junk stale buf size)
  decode_payload-ne-endless tracker buf size =
      printed_tracker-ne-endless (make_tracker_data_fragment junk buf size)
        (make_tracker_data_fragment-ne-no_fuel junk buf size)
  decode_payload-ne-endless digitizer buf size =
      printed-ne-endless digitizer_thrown (decode_digitizer buf size)
  decode_payload-ne-endless bobr buf size =
      printed-ne-endless bobr_thrown (Bobr.make_fragment buf size)
  decode_payload-ne-endless hex_words buf size = λ h. cc
  decode_payload-ne-endless nothing buf size = λ h. cc

  dump_fragment-ne-endless :
      (tag : ℕ) (f : EventFragment) → dump_fragment junk stale o tag f ≢ endless
  unfolding dump_fragment
  dump_fragment-ne-endless tag f =
      if-ne-endless o.show_data
        (decode_payload junk stale (decoder_of o tag f.header.source_id) f.fragment
          f.header.payload_size)
        (decode_payload-ne-endless (decoder_of o tag f.header.source_id) f.fragment
          f.header.payload_size)

  dump_fragments-ne-endless :
      (ev : EventFull) (ids : List ℕ) → dump_fragments junk stale o ev ids ≢ endless
  unfolding dump_fragments
  dump_fragments-ne-endless ev [] = λ h. cc
  dump_fragments-ne-endless ev (id ∷ ids) = elim (Option-cases (find_fragment ev id)) [
    | inl e ↦ rw (dump_fragments, e) (λ h. cc)
    | inr (f, e) ↦
        rw (dump_fragments, e)
          (and_then-ne-endless (dump_fragment junk stale o ev.header.event_tag f)
            (dump_fragments junk stale o ev ids) (dump_fragment-ne-endless ev.header.event_tag f)
            (dump_fragments-ne-endless ev ids))
  ]

  dump_event-ne-endless : (ev : EventFull) → dump_event junk stale o ev ≢ endless
  unfolding dump_event
  dump_event-ne-endless ev =
      if-ne-endless o.show_fragments (dump_fragments junk stale o ev (get_fragment_ids ev))
        (dump_fragments-ne-endless ev (get_fragment_ids ev))

dump_loop-ne-stuck :
    (fuel junk : ℕ) (stale : Bool) (o : DumpOptions) (input : List ℕ) (n : ℕ)
    → length input ≤ fuel
    → dump_loop fuel junk stale o input n ≢ stuck
unfolding dump_loop
dump_loop-ne-stuck fuel junk stale o [] n h = λ e. cc
dump_loop-ne-stuck zero junk stale o (b ∷ bs) n h = absurd (omega arith)
dump_loop-ne-stuck (suc fuel) junk stale o (b ∷ bs) n h =
    elim (Result-Cases (read_event (b ∷ bs))) [
      | thrown x r ↦ rw (r, dump_loop) (λ e. cc)
      | faulted r ↦ rw (r, dump_loop) (λ e. cc)
      | returned (ev, rest) r ↦
          let shorter : length rest ≤ fuel = omega (arith, read_event-shorter (b ∷ bs) rest ev r) in
          elim (Shown-cases (dump_event junk stale o ev)) [
            | was_escaped x d ↦ rw (r, d, dump_loop) (λ e. cc)
            | was_undefined d ↦ rw (r, d, dump_loop) (λ e. cc)
            | was_endless d ↦ absurd (dump_event-ne-endless junk stale o ev d)
            | was_shown d ↦ elim (Bool-cases (is_last o.n_events_max (n + 1))) [
              | inl last ↦ rw (r, d, last, dump_loop) (λ e. cc)
              | inr more ↦
                  rw (r, d, more, dump_loop)
                    (dump_loop-ne-stuck fuel junk stale o rest (n + 1) shorter)
            ]
          ]
    ]

-- A round for each byte is enough for every file and all options.
pub dump_events-ne-stuck :
    (junk : ℕ) (stale : Bool) (o : DumpOptions) (input : List ℕ)
    → dump_events junk stale o input ≢ stuck
unfolding dump_events
dump_events-ne-stuck junk stale o input =
    dump_loop-ne-stuck (length input) junk stale o input 0 (omega arith)
