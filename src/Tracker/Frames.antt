-- ===== src/Tracker/Frames.antt =====
-- A readout board's frames, and what the loop makes of them.
use faser_common.Common.{
  ℕ, ◌+◌, ◌*◌, ◌/◌, ◌%◌, ◌^◌, ◌<◌, ◌≡◌, inl, inr, refl, ap, ◌∙◌, List, [], ◌∷◌, Bool, true, false,
  arith,
}
use faser_common.Common.{bit_and, ◌==◌, Bool-cases, ==_iff, ◌||◌}
use faser_common.Common.Bits.{bit_and_mask, bit_and_shifted}
use faser_common.Common.Words.{u8}
use faser_common.Tracker.{
  TrbEvent, word_type, data_type, frame_counter, frame_loop, frame_word, header_word, trb_data_word,
  module_data_word, push_module, module_key, trb_end,
}

-- A frame: the counter, and the word's type, data type and value.
abbrev pub frame : ℕ → ℕ × ℕ × ℕ → ℕ
frame c (t, d, v) = t * 2 ^ 30 + c * 2 ^ 27 + d * 2 ^ 24 + v

-- Frames are numbered one after the other, modulo 8.
abbrev pub stamped : ℕ → List (ℕ × ℕ × ℕ) → List ℕ
stamped c [] = []
stamped c (b ∷ bs) = frame c b ∷ stamped ((c + 1) % 8) bs

abbrev pub IsFrame : ℕ × ℕ × ℕ → Type 0
IsFrame (t, d, v) = (t < 4) × (d < 8) × (v < 2 ^ 24)

module _ (c t d v : ℕ) (hc : c < 8) (ht : t < 4) (hd : d < 8) (hv : v < 2 ^ 24) where
  word_type-frame : word_type (frame c (t, d, v)) ≡ t * 2 ^ 30
  word_type-frame = omega (arith, bit_and_shifted 30 2 (frame c (t, d, v)))

  data_type-frame : data_type (frame c (t, d, v)) ≡ d * 2 ^ 24
  data_type-frame = omega (arith, bit_and_shifted 24 3 (frame c (t, d, v)))

  pub frame_counter-frame : frame_counter (frame c (t, d, v)) ≡ c
  frame_counter-frame = omega (arith, bit_and_shifted 27 3 (frame c (t, d, v)))

  value-frame : bit_and (frame c (t, d, v)) 0xFFFFFF ≡ v
  value-frame = omega (arith, bit_and_mask 24 (frame c (t, d, v)))

-- One round on a word whose counter is the one expected.
round :
    (w next : ℕ) (ws : List ℕ) (later : Bool) (ev : TrbEvent)
    → (later ≡ true → frame_counter w ≡ next)
    → frame_loop (w ∷ ws) later next ev ≡ (elim (frame_word ev w).1 [
      | true ↦ frame_loop ws true ((frame_counter w + 1) % 8) (frame_word ev w).0
      | false ↦ (frame_word ev w).0
    ])
unfolding frame_loop
round w next ws false ev e = refl
round w next ws true ev e = elim (Bool-cases (w == trb_end)) [
  | inl last ↦ rw (frame_loop, last) refl
  | inr more ↦ rw (frame_loop, more, (==_iff (frame_counter w) next).1 (e refl)) refl
]

pub round_on :
    (w next : ℕ) (ws : List ℕ) (later : Bool) (ev ev' : TrbEvent)
    → (later ≡ true → frame_counter w ≡ next)
    → frame_word ev w ≡ (ev', true)
    → frame_loop (w ∷ ws) later next ev ≡ frame_loop ws true ((frame_counter w + 1) % 8) ev'
round_on w next ws later ev ev' e p =
    round w next ws later ev e
    ∙ ap
        (λ (r : TrbEvent × Bool). elim r.1 as (λ x. TrbEvent) [
          | true ↦ frame_loop ws true ((frame_counter w + 1) % 8) r.0
          | false ↦ r.0
        ])
        p

pub round_off :
    (w next : ℕ) (ws : List ℕ) (later : Bool) (ev ev' : TrbEvent)
    → (later ≡ true → frame_counter w ≡ next)
    → frame_word ev w ≡ (ev', false)
    → frame_loop (w ∷ ws) later next ev ≡ ev'
round_off w next ws later ev ev' e p =
    round w next ws later ev e
    ∙ ap
        (λ (r : TrbEvent × Bool). elim r.1 as (λ x. TrbEvent) [
          | true ↦ frame_loop ws true ((frame_counter w + 1) % 8) r.0
          | false ↦ r.0
        ])
        p

-- The four kinds of frames of a regular readout.
module _ (c v : ℕ) (ev : TrbEvent) (hc : c < 8) (hv : v < 2 ^ 24) where
  pub event_id_frame :
      ev.m_event_id_missing ≡ true
      → frame_word ev (frame c (0, 0, v))
        ≡ (record ev { m_event_id = v; m_event_id_missing = false }, true)
  unfolding frame_word header_word
  event_id_frame missing =
      rw
        (
          word_type-frame c 0 0 v hc (omega arith) (omega arith) hv,
          data_type-frame c 0 0 v hc (omega arith) (omega arith) hv,
          missing,
          value-frame c 0 0 v hc (omega arith) (omega arith) hv,
        )
        refl

  pub crc_frame :
      ev.m_crc_missing ≡ true
      → frame_word ev (frame c (0, 1, v)) ≡ (record ev { m_crc = v; m_crc_missing = false }, false)
  unfolding frame_word header_word
  crc_frame missing =
      let other : (frame c (0, 1, v) == trb_end) ≡ false = ground arith in
      rw
        (
          word_type-frame c 0 1 v hc (omega arith) (omega arith) hv,
          data_type-frame c 0 1 v hc (omega arith) (omega arith) hv,
          other,
          missing,
          value-frame c 0 1 v hc (omega arith) (omega arith) hv,
        )
        refl

  pub bc_id_frame :
      ev.m_bc_id_missing ≡ true
      → frame_word ev (frame c (1, 0, v))
        ≡ (record ev { m_bc_id = v % 2 ^ 12; m_bc_id_missing = false }, true)
  unfolding frame_word trb_data_word
  bc_id_frame missing =
      let low : bit_and (frame c (1, 0, v)) 0xFFF ≡ v % 2 ^ 12 =
        omega (arith, bit_and_mask 12 (frame c (1, 0, v))) in
      rw
        (
          word_type-frame c 1 0 v hc (omega arith) (omega arith) hv,
          data_type-frame c 1 0 v hc (omega arith) (omega arith) hv,
          missing,
          low,
        )
        refl

  pub module_frame :
      (channel module_id : ℕ)
      → channel < 2
      → module_id < 8
      → frame_word ev (frame c (2 + channel, module_id, v))
        ≡ (record ev { m_mod_db = push_module (module_key module_id channel) v ev.m_mod_db }, true)
  unfolding frame_word module_data_word
  module_frame channel module_id hch hm =
      let w = frame c (2 + channel, module_id, v) in
      let kind : word_type w ≡ (2 + channel) * 2 ^ 30 =
        word_type-frame c (2 + channel) module_id v hc (omega arith) hm hv in
      let not_header : (word_type w == 0) ≡ false = ground (arith, kind) in
      let not_trb : (word_type w == 0x40000000) ≡ false = ground (arith, kind) in
      let is_data : ((word_type w == 0x80000000) || (word_type w == 0xC0000000)) ≡ true =
        ground (arith, kind) in
      let ch : u8 (bit_and w 0x40000000 / 2 ^ 30) ≡ channel =
        omega (arith, bit_and_shifted 30 1 w) in
      let m : u8 (bit_and w 0x07000000 / 2 ^ 24) ≡ module_id =
        omega (arith, bit_and_shifted 24 3 w) in
      rw
        (
          not_header,
          not_trb,
          is_data,
          ch,
          m,
          value-frame c (2 + channel) module_id v hc (omega arith) hm hv,
        )
        refl
