-- ===== src/Tracker/Readout.antt =====
-- A whole readout, as a board sends it, and what is decoded of it.
use faser_common.Common.{
  ℕ, ◌+◌, ◌*◌, ◌/◌, ◌%◌, ◌^◌, ◌≤◌, ◌<◌, ◌≡◌, refl, ap, ◌∙◌, List, [], ◌∷◌, ◌++◌, map, All,
  All-append, true, false, arith,
}
use faser_common.Common.{◌==◌, length, length-append, ok, Bool-cases, inl, inr}
use faser_common.Common.Words.{IsU32, words, word_bytes, words-word_bytes, length-word_bytes}
use faser_common.Checksum.{checksum_of_words}
use faser_common.Checksum.Laws.{return_fletcher_checksum-in_range}
use faser_common.Tracker.{
  TrbEvent, frame_loop, push_module, module_key, valid, fresh_event, decode_frames,
}
use faser_common.Common.OrderedMap.{find}
use faser_common.Tracker.Modules.{words_under, words_of, sorted_out, words_under-sorted_out}
use faser_common.Tracker.Frames.{
  frame, stamped, IsFrame, frame_counter-frame, round_on, round_off, event_id_frame, crc_frame,
  bc_id_frame, module_frame,
}

-- The words of the modules: channel, module and value of each.
abbrev pub IsHit : ℕ × ℕ × ℕ → Type 0
IsHit (channel, module_id, value) = (channel < 2) × (module_id < 8) × (value < 2 ^ 24)

abbrev pub body : ℕ × ℕ × ℕ → ℕ × ℕ × ℕ
body (channel, module_id, value) = (2 + channel, module_id, value)

-- Event id, bunch crossing, the words of the modules and the checksum, numbered from `c` on.
abbrev pub readout : ℕ → ℕ → ℕ → List (ℕ × ℕ × ℕ) → ℕ → List ℕ
readout c event_id bc_id hits crc =
    stamped c ((0, 0, event_id) ∷ (1, 0, bc_id) ∷ (map body hits ++ ((0, 1, crc) ∷ [])))

-- The event that a readout stands for.
abbrev pub event_of : ℕ → ℕ → ℕ → ℕ → List (ℕ × ℕ × ℕ) → ℕ → TrbEvent
event_of junk calculated event_id bc_id hits crc = record (fresh_event junk calculated) {
  m_event_id = event_id;
  m_event_id_missing = false;
  m_bc_id = bc_id;
  m_bc_id_missing = false;
  m_mod_db = sorted_out hits [];
  m_crc = crc;
  m_crc_missing = false;
}

body_fits : (hs : List (ℕ × ℕ × ℕ)) → All IsHit hs → All IsFrame (map body hs)
body_fits [] h = tt
body_fits ((channel, module_id, value) ∷ hs) (hit, h) =
    ((omega (arith, hit.0), hit.1, hit.2), body_fits hs h)

module_loop :
    (c : ℕ) (hits : List (ℕ × ℕ × ℕ)) (crc : ℕ) (ev : TrbEvent)
    → c < 8
    → All IsHit hits
    → crc < 2 ^ 24
    → ev.m_crc_missing ≡ true
    → frame_loop (stamped c (map body hits ++ ((0, 1, crc) ∷ []))) true c ev
      ≡ record ev { m_mod_db = sorted_out hits ev.m_mod_db; m_crc = crc; m_crc_missing = false }
unfolding sorted_out
module_loop c [] crc ev hc h hcrc missing =
    round_off (frame c (0, 1, crc)) c [] true ev _
      (λ later. frame_counter-frame c 0 1 crc hc (omega arith) (omega arith) hcrc)
      (crc_frame c crc ev hc hcrc missing)
module_loop c ((channel, module_id, value) ∷ hits) crc ev hc (hit, h) hcrc missing =
    let k =
      frame_counter-frame c (2 + channel) module_id value hc (omega (arith, hit.0)) hit.1 hit.2 in
    let rest = stamped ((c + 1) % 8) (map body hits ++ ((0, 1, crc) ∷ [])) in
    let ev' : TrbEvent = record ev {
      m_mod_db = push_module (module_key module_id channel) value ev.m_mod_db;
    } in
    round_on (frame c (2 + channel, module_id, value)) c rest true ev ev' (λ later. k)
      (module_frame c value ev hc hit.2 channel module_id hit.0 hit.1)
    ∙ ap (λ (n : ℕ). frame_loop rest true ((n + 1) % 8) ev') k
    ∙ module_loop ((c + 1) % 8) hits crc ev' (omega arith) h hcrc missing

module _ (c event_id bc_id : ℕ) (hits : List (ℕ × ℕ × ℕ)) (crc : ℕ) (hc : c < 8)
    (he : event_id < 2 ^ 24) (hb : bc_id < 2 ^ 12) (hits_fit : All IsHit hits)
    (hcrc : crc < 2 ^ 24) where
  frame_loop-readout :
      (junk calculated : ℕ)
      → frame_loop (readout c event_id bc_id hits crc) false 0xf (fresh_event junk calculated)
        ≡ event_of junk calculated event_id bc_id hits crc
  frame_loop-readout junk calculated =
      let c1 : ℕ = (c + 1) % 8 in
      let c2 : ℕ = (c1 + 1) % 8 in
      let tail = stamped c2 (map body hits ++ ((0, 1, crc) ∷ [])) in
      let ev0 : TrbEvent = fresh_event junk calculated in
      let ev1 : TrbEvent = record ev0 { m_event_id = event_id; m_event_id_missing = false } in
      let ev2 : TrbEvent = record ev1 { m_bc_id = bc_id; m_bc_id_missing = false } in
      let k0 = frame_counter-frame c 0 0 event_id hc (omega arith) (omega arith) he in
      let k1 =
        frame_counter-frame c1 1 0 bc_id (omega arith) (omega arith) (omega arith)
          (omega (arith, hb)) in
      let low : bc_id % 2 ^ 12 ≡ bc_id = omega (arith, hb) in
      round_on (frame c (0, 0, event_id)) 0xf (frame c1 (1, 0, bc_id) ∷ tail) false ev0 ev1
        (λ later. absurd cc) (event_id_frame c event_id ev0 hc he refl)
      ∙ ap (λ (n : ℕ). frame_loop (frame c1 (1, 0, bc_id) ∷ tail) true ((n + 1) % 8) ev1) k0
      ∙ round_on (frame c1 (1, 0, bc_id)) c1 tail true ev1 ev2 (λ later. k1)
          (bc_id_frame c1 bc_id ev1 (omega arith) (omega (arith, hb)) refl
            ∙ ap (λ (n : ℕ). (record ev1 { m_bc_id = n; m_bc_id_missing = false }, true)) low)
      ∙ ap (λ (n : ℕ). frame_loop tail true ((n + 1) % 8) ev2) k1
      ∙ module_loop c2 hits crc ev2 (omega arith) hits_fit hcrc refl

stamped-IsU32 : (c : ℕ) (bs : List (ℕ × ℕ × ℕ)) → c < 8 → All IsFrame bs → All IsU32 (stamped c bs)
stamped-IsU32 c [] hc h = tt
stamped-IsU32 c ((t, d, v) ∷ bs) hc (f, h) =
    (omega (arith, f.0, f.1, f.2), stamped-IsU32 ((c + 1) % 8) bs (omega arith) h)

readout-IsU32 :
    (c event_id bc_id : ℕ) (hits : List (ℕ × ℕ × ℕ)) (crc : ℕ)
    → c < 8
    → event_id < 2 ^ 24
    → bc_id < 2 ^ 12
    → All IsHit hits
    → crc < 2 ^ 24
    → All IsU32 (readout c event_id bc_id hits crc)
readout-IsU32 c event_id bc_id hits crc hc he hb hh hcrc =
    let last : All IsFrame ((0, 1, crc) ∷ []) = ((omega arith, omega arith, hcrc), tt) in
    let bodies : List (ℕ × ℕ × ℕ) =
      (0, 0, event_id) ∷ (1, 0, bc_id) ∷ (map body hits ++ ((0, 1, crc) ∷ [])) in
    let fit : All IsFrame bodies = (
      (omega arith, omega arith, he),
      (
        (omega arith, omega arith, omega (arith, hb)),
        All-append IsFrame (map body hits) ((0, 1, crc) ∷ []) (body_fits hits hh) last,
      ),
    ) in
    stamped-IsU32 c bodies hc fit

valid-event_of :
    (junk calculated event_id bc_id : ℕ) (hits : List (ℕ × ℕ × ℕ)) (crc : ℕ)
    → valid (event_of junk calculated event_id bc_id hits crc) ≡ (crc == calculated)
unfolding valid
valid-event_of junk calculated event_id bc_id hits crc = elim (Bool-cases (crc == calculated)) [
  | inl same ↦ rw same refl
  | inr other ↦ rw other refl
]

-- Of the frames of a readout, numbered from any counter on and followed by anything in memory, the
-- constructor gets the event id, the bunch crossing and, under the key of each module and channel,
-- the words of these in the order in which they came; the event is valid exactly if the checksum frame holds the
-- checksum of the frames before it.
pub decode_frames-readout {ℓ} :
    {E : Type ℓ} (junk c event_id bc_id : ℕ) (hits : List (ℕ × ℕ × ℕ)) (crc : ℕ) (more : List ℕ)
    → c < 8
    → event_id < 2 ^ 24
    → bc_id < 2 ^ 12
    → All IsHit hits
    → crc < 2 ^ 24
    → (ev : TrbEvent) × (decode_frames {E = E} junk
          (word_bytes (readout c event_id bc_id hits crc) ++ more)
          (4 * length (readout c event_id bc_id hits crc))
        ≡ ok ev)
      × (ev.m_event_id ≡ event_id)
      × (ev.m_bc_id ≡ bc_id)
      × ((key : ℕ) → words_under key ev.m_mod_db ≡ words_of key hits)
      × (valid ev ≡ (crc == checksum_of_words (readout c event_id bc_id hits crc)))
unfolding decode_frames find
decode_frames-readout {E = E} junk c event_id bc_id hits crc more hc he hb hh hcrc =
    let ws = readout c event_id bc_id hits crc in
    let n = length ws in
    let quarter : 4 * n / 4 ≡ n = omega arith in
    let inside : 4 * (4 * n / 4) ≤ length (word_bytes ws ++ more) =
      omega (arith, length-append (word_bytes ws) more, length-word_bytes ws) in
    let back =
      ap (λ (k : ℕ). words k (word_bytes ws ++ more)) quarter
      ∙ words-word_bytes ws more (readout-IsU32 c event_id bc_id hits crc hc he hb hh hcrc) in
    (
      event_of junk (checksum_of_words ws) event_id bc_id hits crc,
      rw (return_fletcher_checksum-in_range {E = E} (word_bytes ws ++ more) (4 * n) inside) (
          ap
            (λ (vs : List ℕ).
              ok (frame_loop vs false 0xf (fresh_event junk (checksum_of_words vs))))
            back
          ∙ ap ok (
              frame_loop-readout c event_id bc_id hits crc hc he hb hh hcrc junk
                (checksum_of_words ws))),
      refl,
      refl,
      λ key. words_under-sorted_out key hits [],
      valid-event_of junk (checksum_of_words ws) event_id bc_id hits crc,
    )
