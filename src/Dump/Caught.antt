-- ===== src/Dump/Caught.antt =====
-- The exceptions that end the program.
use faser_common.Common.{
  ℕ, ◌≡◌, ◌≢◌, ◌↔◌, ◌⊎◌, refl, sym, ap, ◌∙◌, List, length, Bool, true, false, Bool-cases, inl, inr,
  arith,
}
use faser_common.Common.{Result, ok, throw, fault}
use native.Mathlib.Decide.{dec_lt}
use faser_common.Daq.Fragment.{EventFragment}
use faser_common.TlbData as Tlb
use faser_common.TlbData.Make as TlbMake
use faser_common.TlbMonitoring as Monitoring
use faser_common.TlbMonitoring.Make as MonitoringMake
use faser_common.Digitizer.{DigitizerDataException, decode_digitizer}
use faser_common.Bobr.{BobrDataException}
use faser_common.Bobr as Bobr
use faser_common.Tracker.Decode.{make_tracker_data_fragment}
use faser_common.Tracker.Decode.Whole.{make_tracker_data_fragment-returns}
use faser_common.Dump.{
  DumpOptions, DumpException, tlb_thrown, tlb_monitoring_thrown, digitizer_thrown, bobr_thrown,
  shown, escaped, printed, printed_tracker, Decoder, tlb_data, tlb_monitoring, tracker, digitizer,
  bobr, hex_words, nothing, decoder_of, decode_payload, dump_fragment,
}

-- The two decoders whose exceptions are not caught, and what they throw on a payload.
abbrev pub Refused : Decoder → List ℕ → DumpException → Type 0
Refused d buf e =
    ((d ≡ digitizer)
      × (x : DigitizerDataException) × (decode_digitizer buf (length buf) ≡ throw x)
      × (e ≡ digitizer_thrown x))
    ⊎ ((d ≡ bobr)
        × (x : BobrDataException) × (Bobr.make_fragment buf (length buf) ≡ throw x)
        × (e ≡ bobr_thrown x))

module _ {ℓ κ} {E : Type ℓ} {A : Type κ} (thrown : E → DumpException) where
  printed-escaped :
      (r : Result E A) (e : DumpException)
      → printed thrown r ≡ escaped e
      → (x : E) × (r ≡ throw x) × (e ≡ thrown x)
  printed-escaped (ok a) e h = cc
  printed-escaped (throw x) e h = (x, refl, cc)
  printed-escaped fault e h = cc

-- The trigger board's decoders and the tracker's never throw to `main`.
tlb-ne-throw :
    (junk : ℕ) (stale : Bool) (buf : List ℕ) (x : Tlb.TlbDataException)
    → Tlb.make_fragment junk stale buf (length buf) ≢ throw x
tlb-ne-throw junk stale buf x = elim (dec_lt (length buf) 4) [
  | yes short ↦ λ h. cc (h, (TlbMake.make_fragment-fault_iff junk stale buf).1 short)
  | no long ↦
      λ h. cc (h, TlbMake.make_fragment_ok junk stale buf (length buf) (omega arith) (omega arith))
]

monitoring-ne-throw :
    (junk : ℕ) (stale : Bool) (buf : List ℕ) (x : Monitoring.TlbMonException)
    → Monitoring.make_fragment junk stale buf (length buf) ≢ throw x
monitoring-ne-throw junk stale buf x = elim (dec_lt (length buf) 4) [
  | yes short ↦ λ h.
      cc
        (h, (MonitoringMake.make_fragment-faults junk stale buf (length buf) (omega arith)).1 short)
  | no long ↦ λ h.
      cc
        (h, MonitoringMake.make_fragment_ok junk stale buf (length buf) (omega arith) (omega arith))
]

tracker_printed :
    (junk : ℕ) (buf : List ℕ)
    → printed_tracker (make_tracker_data_fragment junk buf (length buf)) ≡ shown
tracker_printed junk buf =
    let (ev, slots, e, frames, eight, all) =
      make_tracker_data_fragment-returns junk buf (length buf) (omega arith) in
    ap printed_tracker e

decode_payload-escaped :
    (junk : ℕ) (stale : Bool) (d : Decoder) (buf : List ℕ) (e : DumpException)
    → (decode_payload junk stale d buf (length buf) ≡ escaped e) ↔ Refused d buf e
unfolding decode_payload
decode_payload-escaped junk stale tlb_data buf e = (
  λ h.
      let (x, r, s) =
        printed-escaped tlb_thrown (Tlb.make_fragment junk stale buf (length buf)) e h in
      absurd (tlb-ne-throw junk stale buf x r),
  λ h. elim h [ inl p ↦ cc (p.0) | inr p ↦ cc (p.0) ],
)
decode_payload-escaped junk stale tlb_monitoring buf e = (
  λ h.
      let (x, r, s) =
        printed-escaped tlb_monitoring_thrown (Monitoring.make_fragment junk stale buf (length buf))
          e h in
      absurd (monitoring-ne-throw junk stale buf x r),
  λ h. elim h [ inl p ↦ cc (p.0) | inr p ↦ cc (p.0) ],
)
decode_payload-escaped junk stale tracker buf e =
    (λ h. cc (h, tracker_printed junk buf), λ h. elim h [ inl p ↦ cc (p.0) | inr p ↦ cc (p.0) ])
decode_payload-escaped junk stale digitizer buf e = (
  λ h.
      let (x, r, s) = printed-escaped digitizer_thrown (decode_digitizer buf (length buf)) e h in
      inl (refl, x, r, s),
  λ h. elim h [
    | inl p ↦ ap (printed digitizer_thrown) p.2 ∙ ap escaped (sym p.3)
    | inr p ↦ cc (p.0)
  ],
)
decode_payload-escaped junk stale bobr buf e = (
  λ h.
      let (x, r, s) = printed-escaped bobr_thrown (Bobr.make_fragment buf (length buf)) e h in
      inr (refl, x, r, s),
  λ h. elim h [ inl p ↦ cc (p.0) | inr p ↦ ap (printed bobr_thrown) p.2 ∙ ap escaped (sym p.3) ],
)
decode_payload-escaped junk stale hex_words buf e =
    (λ h. cc, λ h. elim h [ inl p ↦ cc (p.0) | inr p ↦ cc (p.0) ])
decode_payload-escaped junk stale nothing buf e =
    (λ h. cc, λ h. elim h [ inl p ↦ cc (p.0) | inr p ↦ cc (p.0) ])

-- An exception ends the dump at a fragment whose header gives its payload's size exactly if the data
-- is to be printed and the fragment goes to the decoder of the digitizer or of the beam orbit board,
-- and that decoder throws; the decoders of the trigger board and of the tracker never do so.
pub dump_fragment-throws_iff :
    (junk : ℕ) (stale : Bool) (o : DumpOptions) (tag : ℕ) (f : EventFragment) (e : DumpException)
    → f.header.payload_size ≡ length f.fragment
    → (dump_fragment junk stale o tag f ≡ escaped e)
      ↔ ((o.show_data ≡ true) × Refused (decoder_of o tag f.header.source_id) f.fragment e)
unfolding dump_fragment
dump_fragment-throws_iff junk stale o tag f e sized =
    let d = decoder_of o tag f.header.source_id in
    let at_size : decode_payload junk stale d f.fragment f.header.payload_size
        ≡ decode_payload junk stale d f.fragment (length f.fragment) =
      ap (decode_payload junk stale d f.fragment) sized in
    let thrown = decode_payload-escaped junk stale d f.fragment e in
    elim (Bool-cases o.show_data) [
      | inl visible ↦ (
        λ h. (visible, thrown.0 (sym (shown_fragment visible ∙ at_size) ∙ h)),
        λ p. shown_fragment visible ∙ at_size ∙ thrown.1 p.1,
      )
      | inr hidden ↦ (λ h. cc (h, hidden_fragment hidden), λ p. cc (p.0, hidden))
    ]
  where
    shown_fragment :
        o.show_data ≡ true
        → dump_fragment junk stale o tag f
          ≡ decode_payload junk stale
              (decoder_of o tag f.header.source_id)
              f.fragment
              f.header.payload_size
    shown_fragment visible = simp (visible, dump_fragment)

    hidden_fragment : o.show_data ≡ false → dump_fragment junk stale o tag f ≡ shown
    hidden_fragment hidden = simp (hidden, dump_fragment)
