-- ===== src/Tracker/Lost.antt =====
-- A readout in which a frame is missing.
use faser_common.Common.{
  ℕ, suc, ◌+◌, ◌%◌, ◌^◌, ◌<◌, ◌≡◌, ◌≢◌, refl, ap, ◌∙◌, List, [], ◌∷◌, ◌++◌, map, All, true, false,
  arith,
}
use faser_common.Common.{◌==◌, length}
use faser_common.Tracker.{
  TrbEvent, frame_loop, frame_counter, trb_end, push_module, module_key, valid, fresh_event,
}
use faser_common.Tracker.Frames.{
  frame, stamped, frame_counter-frame, round_on, event_id_frame, bc_id_frame, module_frame,
}
use faser_common.Tracker.Readout.{IsHit, body}

-- The loop over words of modules, whatever follows them.
front_loop :
    (c : ℕ) (front : List (ℕ × ℕ × ℕ)) (tail : List ℕ) (ev : TrbEvent)
    → c < 8
    → All IsHit front
    → (ev' : TrbEvent) × (frame_loop (stamped c (map body front) ++ tail) true c ev
        ≡ frame_loop tail true ((c + length front) % 8) ev')
front_loop c [] tail ev hc h =
    let same : c ≡ (c + 0) % 8 = omega arith in (ev, ap (λ (n : ℕ). frame_loop tail true n ev) same)
front_loop c ((channel, module_id, value) ∷ hits) tail ev hc (hit, h) =
    let k =
      frame_counter-frame c (2 + channel) module_id value hc (omega (arith, hit.0)) hit.1 hit.2 in
    let rest = stamped ((c + 1) % 8) (map body hits) ++ tail in
    let ev1 : TrbEvent = record ev {
      m_mod_db = push_module (module_key module_id channel) value ev.m_mod_db;
    } in
    let (ev', again) = front_loop ((c + 1) % 8) hits tail ev1 (omega arith) h in
    let sum : ((c + 1) % 8 + length hits) % 8 ≡ (c + suc (length hits)) % 8 = omega arith in
    (
      ev',
      round_on (frame c (2 + channel, module_id, value)) c rest true ev ev1 (λ later. k)
            (module_frame c value ev hc hit.2 channel module_id hit.0 hit.1)
          ∙ ap (λ (n : ℕ). frame_loop rest true ((n + 1) % 8) ev1) k
          ∙ again
          ∙ ap (λ (n : ℕ). frame_loop tail true n ev') sum,
    )

invalid : (ev : TrbEvent) → valid (record ev { m_frame_counter_invalid = true }) ≡ false
unfolding valid
invalid ev = ground arith

-- A word with another counter than the one expected.
jump :
    (w next : ℕ) (ws : List ℕ) (ev : TrbEvent)
    → (w == trb_end) ≡ false
    → frame_counter w ≢ next
    → valid (frame_loop (w ∷ ws) true next ev) ≡ false
unfolding frame_loop
jump w next ws ev other ne =
    let differs : (frame_counter w == next) ≡ false = ground arith in
    rw (frame_loop, other, differs) (invalid ev)

-- The frames that follow the missing one start with a counter too high.
gap :
    (next : ℕ) (back : List (ℕ × ℕ × ℕ)) (crc : ℕ) (ev : TrbEvent)
    → next < 8
    → All IsHit back
    → crc < 2 ^ 24
    → valid
        (frame_loop (stamped ((next + 1) % 8) (map body back ++ ((0, 1, crc) ∷ []))) true next ev)
      ≡ false
gap next [] crc ev hn h hcrc =
    let c : ℕ = (next + 1) % 8 in
    let k = frame_counter-frame c 0 1 crc (omega arith) (omega arith) (omega arith) hcrc in
    let other : (frame c (0, 1, crc) == trb_end) ≡ false = ground arith in
    jump (frame c (0, 1, crc)) next [] ev other (λ e. omega (arith, k, e))
gap next ((channel, module_id, value) ∷ hits) crc ev hn (hit, h) hcrc =
    let c : ℕ = (next + 1) % 8 in
    let k =
      frame_counter-frame c (2 + channel) module_id value (omega arith) (omega (arith, hit.0)) hit.1
        hit.2 in
    let other : (frame c (2 + channel, module_id, value) == trb_end) ≡ false = ground arith in
    jump (frame c (2 + channel, module_id, value)) next _ ev other (λ e. omega (arith, k, e))

-- A readout of which one frame is missing, that of some word of a module, is not valid, whatever
-- the checksum frame holds: the frames `front` before the missing one and those behind it are
-- numbered as they were sent.
pub valid-lost_frame :
    (junk calculated c event_id bc_id : ℕ) (front back : List (ℕ × ℕ × ℕ)) (crc : ℕ)
    → c < 8
    → event_id < 2 ^ 24
    → bc_id < 2 ^ 12
    → All IsHit front
    → All IsHit back
    → crc < 2 ^ 24
    → valid (
        frame_loop
          (stamped c ((0, 0, event_id) ∷ (1, 0, bc_id) ∷ map body front)
            ++ stamped ((c + 3 + length front) % 8) (map body back ++ ((0, 1, crc) ∷ [])))
          false
          0xf
          (fresh_event junk calculated))
      ≡ false
valid-lost_frame junk calculated c event_id bc_id front back crc hc he hb hf hback hcrc =
    let c1 : ℕ = (c + 1) % 8 in
    let c2 : ℕ = (c1 + 1) % 8 in
    let next : ℕ = (c2 + length front) % 8 in
    let tail = stamped ((c + 3 + length front) % 8) (map body back ++ ((0, 1, crc) ∷ [])) in
    let words = stamped c2 (map body front) ++ tail in
    let ev0 : TrbEvent = fresh_event junk calculated in
    let ev1 : TrbEvent = record ev0 { m_event_id = event_id; m_event_id_missing = false } in
    let ev2 : TrbEvent = record ev1 { m_bc_id = bc_id % 2 ^ 12; m_bc_id_missing = false } in
    let k0 = frame_counter-frame c 0 0 event_id hc (omega arith) (omega arith) he in
    let k1 =
      frame_counter-frame c1 1 0 bc_id (omega arith) (omega arith) (omega arith)
        (omega (arith, hb)) in
    let (ev3, front_done) = front_loop c2 front tail ev2 (omega arith) hf in
    let following : (c + 3 + length front) % 8 ≡ (next + 1) % 8 = omega arith in
    ap valid (
      round_on (frame c (0, 0, event_id)) 0xf (frame c1 (1, 0, bc_id) ∷ words) false ev0 ev1
        (λ later. absurd cc) (event_id_frame c event_id ev0 hc he refl)
      ∙ ap (λ (n : ℕ). frame_loop (frame c1 (1, 0, bc_id) ∷ words) true ((n + 1) % 8) ev1) k0
      ∙ round_on (frame c1 (1, 0, bc_id)) c1 words true ev1 ev2 (λ later. k1)
          (bc_id_frame c1 bc_id ev1 (omega arith) (omega (arith, hb)) refl)
      ∙ ap (λ (n : ℕ). frame_loop words true ((n + 1) % 8) ev2) k1
      ∙ front_done
      ∙ ap (λ (n : ℕ). frame_loop (stamped n (map body back ++ ((0, 1, crc) ∷ []))) true next ev3)
          following)
    ∙ gap next back crc ev3 (omega arith) hback hcrc
