-- ===== src/Tracker/Decode/Fragment.antt =====
-- A whole readout, from the bytes of its frames to the hits of a module.
mod Tests
use faser_common.Common.{
  ℕ, zero, suc, ◌+◌, ◌*◌, ◌^◌, ◌<◌, ◌≡◌, refl, sym, ap, ◌∙◌, subst, List, [], ◌∷◌, ◌++◌, length,
  All, some, none, Option, get_elem?, ok, ◌==◌, if◌then◌else◌, Bool-cases, inl, inr, arith,
}
use faser_common.Common.Words.{word_bytes}
use faser_common.Tracker.{TrbEvent, module_key, decode_frames}
use faser_common.Tracker.Modules.{words_under, words_of}
use faser_common.Tracker.Readout.{readout, IsHit, decode_frames-readout}
use faser_common.Tracker.SctEvent.{SctEvent, TrackerDataException}
use faser_common.Tracker.Bitstream.Refine.{IsWord, all_bits}
use faser_common.Tracker.Decode
use faser_common.Tracker.Decode.{
  Decoded, returns, throws, overrun, null_pointer, no_fuel, decode_module, decode_modules,
  no_modules, decode_module_data, make_tracker_data_fragment,
}
use faser_common.Tracker.Decode.Hits.{IsBit}
use faser_common.Tracker.Decode.Layout.{Packet, side_bits}
use faser_common.Tracker.Decode.Encoded.{IsSound}
use faser_common.Tracker.Decode.Module.{HoldsPackets, decode_module-packets}
use faser_common.Tracker.Decode.Total.{DbFits, decode_module_data-returns}

-- Inversion of a part that returned.
both_returned {ℓ κ} :
    {A : Type ℓ} {B : Type κ} (d : Decoded A) (f : A → Decoded B) (r : B)
    → Decode.◌>>=◌ d f ≡ returns r
    → (v : A) × (d ≡ returns v) × (f v ≡ returns r)
both_returned (returns v) f r h = (v, refl, h)
both_returned (throws e) f r h = cc h
both_returned overrun f r h = cc h
both_returned null_pointer f r h = cc h
both_returned no_fuel f r h = cc h

returned_same {ℓ} : {A : Type ℓ} (x y : A) → returns x ≡ returns y → x ≡ y
returned_same x y h = cc h

-- Each module's pointer is what decoding that module makes of it.
decode_modules-slot :
    (db : List (ℕ × List ℕ)) (slots slots' : List (Option SctEvent)) (n i k : ℕ)
    (before after : Option SctEvent)
    → decode_modules db n slots ≡ returns slots'
    → get_elem? slots i ≡ some before
    → n + i ≡ k
    → decode_module db k before ≡ returns after
    → get_elem? slots' i ≡ some after
unfolding decode_modules
decode_modules-slot db [] slots' n i k before after all at_i sum one = cc at_i
decode_modules-slot db (s ∷ slots) slots' n zero k before after all at_i sum one =
    let (s', first, more) = both_returned (decode_module db n s) _ slots' all in
    let (rest, others, e) = both_returned (decode_modules db (n + 1) slots) _ slots' more in
    let same : n ≡ k = omega arith in
    let slot : s ≡ before = cc at_i in
    let made : s' ≡ after = returned_same s' after (
      sym first ∙ ap (λ (t : ℕ). decode_module db t s) same ∙ ap (decode_module db k) slot ∙ one) in
    ap (λ t. get_elem? t 0) (sym (returned_same (s' ∷ rest) slots' e)) ∙ ap some made
decode_modules-slot db (s ∷ slots) slots' n (suc i) k before after all at_i sum one =
    let (s', first, more) = both_returned (decode_module db n s) _ slots' all in
    let (rest, others, e) = both_returned (decode_modules db (n + 1) slots) _ slots' more in
    ap (λ t. get_elem? t (suc i)) (sym (returned_same (s' ∷ rest) slots' e))
    ∙ decode_modules-slot db slots rest (n + 1) i k before after others at_i (omega arith) one

no_module : (k : ℕ) → k < 8 → get_elem? no_modules k ≡ some none
no_module zero h = refl
no_module (suc zero) h = refl
no_module (suc (suc zero)) h = refl
no_module (suc (suc (suc zero))) h = refl
no_module (suc (suc (suc (suc zero)))) h = refl
no_module (suc (suc (suc (suc (suc zero))))) h = refl
no_module (suc (suc (suc (suc (suc (suc zero)))))) h = refl
no_module (suc (suc (suc (suc (suc (suc (suc zero))))))) h = refl
no_module (suc (suc (suc (suc (suc (suc (suc (suc k)))))))) h = absurd (omega arith)

words_of-IsWord :
    (key : ℕ) (hits : List (ℕ × ℕ × ℕ)) → All IsHit hits → All IsWord (words_of key hits)
words_of-IsWord key [] h = tt
words_of-IsWord key ((channel, module_id, value) ∷ hits) (hit, h) =
    let rest = words_of-IsWord key hits h in
    elim (Bool-cases (key == module_key module_id channel)) [
      | inl same ↦ rw same (hit.2, rest)
      | inr other ↦ rw other rest
    ]

-- Of the frames of a readout, whatever the words of the other modules and the checksum, the
-- constructor makes a fragment with the event id and the bunch crossing. If the words that the frames
-- carry for the two sides of a module, in their order, hold a header with the same l1id and bcid,
-- packets of hits, a trailer and anything behind it, the module's pointer is to data with that l1id
-- and bcid, and each chip's hits are those of the two sides' packets for it, in order.
pub make_tracker_data_fragment-packets :
    (junk c event_id bc_id : ℕ) (hits : List (ℕ × ℕ × ℕ)) (crc : ℕ) (more : List ℕ)
    (k l1id bcid : ℕ) (ps qs : List Packet) (pad pad' : List ℕ)
    → c < 8
    → event_id < 2 ^ 24
    → bc_id < 2 ^ 12
    → All IsHit hits
    → crc < 2 ^ 24
    → k < 8
    → l1id < 2 ^ 4
    → bcid < 2 ^ 8
    → all_bits (words_of (module_key k 0) hits) ≡ side_bits l1id bcid ps pad
    → all_bits (words_of (module_key k 1) hits) ≡ side_bits l1id bcid qs pad'
    → All IsSound ps
    → All IsSound qs
    → All IsBit pad
    → All IsBit pad'
    → (ev : TrbEvent) × (slots : List (Option SctEvent)) × (sct : SctEvent)
      × (make_tracker_data_fragment junk
            (word_bytes (readout c event_id bc_id hits crc) ++ more)
            (4 * length (readout c event_id bc_id hits crc))
          ≡ returns (ev, slots))
      × (ev.m_event_id ≡ event_id)
      × (ev.m_bc_id ≡ bc_id)
      × (get_elem? slots k ≡ some (some sct))
      × HoldsPackets k l1id bcid ps qs sct
unfolding make_tracker_data_fragment decode_module_data
make_tracker_data_fragment-packets junk c event_id bc_id hits crc more k l1id bcid ps qs pad pad' hc
      he hb hh hcrc hk hl hbc e e' sound sound' bits bits' =
    let (ev, frames, id, bc, under, checked) =
      decode_frames-readout {E = TrackerDataException} junk c event_id bc_id hits crc more hc he hb
        hh hcrc in
    let db = ev.m_mod_db in
    let fits : DbFits db =
      λ key. subst (All IsWord) (sym (under key)) (words_of-IsWord key hits hh) in
    let (slots, decoded, eight, all) = decode_module_data-returns db fits in
    let (sct, one, holds) =
      decode_module-packets db k l1id bcid ps qs pad pad' hl hbc (fits (module_key k 0))
        (fits (module_key k 1)) (ap all_bits (under (module_key k 0)) ∙ e)
        (ap all_bits (under (module_key k 1)) ∙ e') sound sound' bits bits' in
    (
      ev,
      slots,
      sct,
      rw (make_tracker_data_fragment, frames, decoded) refl,
      id,
      bc,
      decode_modules-slot db no_modules slots 0 k k none (some sct) decoded (no_module k hk)
          (omega arith) one,
      holds,
    )
