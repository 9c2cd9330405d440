-- ===== src/TlbData/Valid.antt =====
-- When a fragment is valid, and what its getters answer.
use faser_common.Common.{
  ℕ, ◌+◌, ◌*◌, ◌/◌, ◌%◌, ◌^◌, ◌≤◌, ◌<◌, ◌≡◌, ◌↔◌, ◌⊎◌, inl, inr, refl, sym, ap, ◌∙◌, List, length,
  drop, arith,
}
use faser_common.Common.{Bool, true, false, ◌==◌, bit_and, Bool-cases, ==_iff, subst}
use faser_common.Common.Bits.{bit_and_mask, bit_and_shifted}
use faser_common.Common.Bytes.{IsBytes, field, field-lt, field-prefix}
use faser_common.Common.Words.{words}
use faser_common.Checksum.{checksum_of_words}
use faser_common.TlbData.{
  TlbDataFragment, TlbEvent, event_of_bytes, initial_image, verify, frame_check, checksum, valid,
}
use faser_common.TlbData.{
  sizeof_event, sizeof_event_v1, trigger_header_v1, trigger_header_v2, version_of,
}
use faser_common.TlbData.Make.{made}

-- A word whose highest four bits are `tag`.
tag_test :
    (x tag : ℕ) → x < 2 ^ 32 → ((bit_and x 0xF0000000 == tag * 2 ^ 28) ≡ true) ↔ (x / 2 ^ 28 ≡ tag)
tag_test x tag h = ground (arith, bit_and_shifted 28 4 x)

-- The same of a word of 16 bits.
tag_test_16 :
    (x tag : ℕ) → x < 2 ^ 16 → ((bit_and x 0xF000 == tag * 2 ^ 12) ≡ true) ↔ (x / 2 ^ 12 ≡ tag)
tag_test_16 x tag h = ground (arith, bit_and_shifted 12 4 x)

-- The frame identifiers, the checksum and the size of a fragment of version 2.
abbrev pub IsSound : TlbDataFragment → Type 0
IsSound f =
    (f.m_size ≡ sizeof_event)
    × (f.m_crc_calculated ≡ f.event.m_checksum % 2 ^ 24)
    × (f.event.m_event_id / 2 ^ 28 ≡ 1)
    × (f.event.m_bc_id / 2 ^ 28 ≡ 3)
    × (f.event.m_tbptap / 2 ^ 12 ≡ 12)
    × (f.event.m_checksum / 2 ^ 28 ≡ 14)

abbrev pub InRange : TlbEvent → Type 0
InRange e =
    (e.m_event_id < 2 ^ 32) × (e.m_bc_id < 2 ^ 32) × (e.m_tbptap < 2 ^ 16) × (e.m_checksum < 2 ^ 32)

frame_check_iff :
    (f : TlbDataFragment)
    → InRange f.event
    → 1 < f.m_version
    → (frame_check f ≡ true)
      ↔ (f.event.m_event_id / 2 ^ 28 ≡ 1)
        × (f.event.m_bc_id / 2 ^ 28 ≡ 3)
        × (f.event.m_tbptap / 2 ^ 12 ≡ 12)
        × (f.event.m_checksum / 2 ^ 28 ≡ 14)
unfolding frame_check
frame_check_iff f r h = ground (
  arith,
  tag_test f.event.m_event_id 1,
  tag_test f.event.m_bc_id 3,
  tag_test_16 f.event.m_tbptap 12,
  tag_test f.event.m_checksum 14,
)

verify_v2_iff :
    (f : TlbDataFragment) → InRange f.event → f.m_version ≡ 2 → (verify f ≡ true) ↔ IsSound f
unfolding verify checksum
verify_v2_iff f r h = ground (arith, frame_check_iff f r, bit_and_mask 24 f.event.m_checksum)

verify_v1_iff :
    (f : TlbDataFragment) → f.m_version ≡ 1 → (verify f ≡ true) ↔ (f.m_size ≡ sizeof_event_v1)
unfolding verify
verify_v1_iff f h = ground arith

verify_unknown : (f : TlbDataFragment) → f.m_version ≡ 0xff → verify f ≡ false
unfolding verify
verify_unknown f h = ground arith

-- What the board sends in the two versions of its format, as seen in the bytes of a payload.
abbrev pub IsV1 : List ℕ → ℕ → Type 0
IsV1 buf size = (field 0 4 buf ≡ trigger_header_v1) × (size ≡ 20)

abbrev pub IsV2 : List ℕ → ℕ → Type 0
IsV2 buf size =
    (field 0 4 buf ≡ trigger_header_v2)
    × (size ≡ 24)
    × (checksum_of_words (words (size / 4) buf) ≡ field 20 4 buf % 2 ^ 24)
    × (field 4 4 buf / 2 ^ 28 ≡ 1)
    × (field 12 4 buf / 2 ^ 28 ≡ 3)
    × (field 18 2 buf / 2 ^ 12 ≡ 12)
    × (field 20 4 buf / 2 ^ 28 ≡ 14)

module _ (junk : ℕ) (stale : Bool) (buf : List ℕ) (bytes : IsBytes buf) where
  -- The members of a fragment of 24 bytes are those of the buffer.
  event_eq : 24 ≤ length buf → (made junk stale buf 24).event ≡ event_of_bytes buf
  unfolding event_of_bytes
  event_eq h =
      let same =
        λ (k n : ℕ) (p : k + n ≤ 24). field-prefix k n 24 buf (drop 24 (initial_image junk)) p h in
      λ i. record {
        m_header = same 0 4 (omega arith) i;
        m_event_id = same 4 4 (omega arith) i;
        m_orbit_id = same 8 4 (omega arith) i;
        m_bc_id = same 12 4 (omega arith) i;
        m_input_bits_next_clk = same 16 1 (omega arith) i;
        m_input_bits = same 17 1 (omega arith) i;
        m_tbptap = same 18 2 (omega arith) i;
        m_checksum = same 20 4 (omega arith) i;
      }

  event-InRange : 24 ≤ length buf → InRange (event_of_bytes buf)
  unfolding event_of_bytes
  event-InRange h = (
    field-lt 4 4 buf bytes (omega arith),
    field-lt 12 4 buf bytes (omega arith),
    field-lt 18 2 buf bytes (omega arith),
    field-lt 20 4 buf bytes (omega arith),
  )

  abbrev with_event : TlbEvent → TlbDataFragment
  with_event e = let f = made junk stale buf 24 in record f { event = e }

  sound_iff :
      24 ≤ length buf
      → field 0 4 buf ≡ trigger_header_v2
      → (verify (made junk stale buf 24) ≡ true) ↔ IsV2 buf 24
  unfolding event_of_bytes
  sound_iff h v2 =
      let p = verify_v2_iff (with_event (event_of_bytes buf)) (event-InRange h) (rw v2 refl) in
      let q : verify (made junk stale buf 24) ≡ verify (with_event (event_of_bytes buf)) =
        ap (λ e. verify (with_event e)) (event_eq h) in
      (
        λ e. let (a, b, c, d, t, u) = p.0 (sym q ∙ e) in (v2, a, b, c, d, t, u),
        λ w. q ∙ p.1 (w.1, w.2, w.3, w.4, w.5, w.6),
      )

verify_v2_size : (f : TlbDataFragment) → f.m_version ≡ 2 → verify f ≡ true → f.m_size ≡ 24
unfolding verify
verify_v2_size f v h = ground arith

-- A fresh fragment is valid exactly if its payload is one that the board sends: 20 bytes under
-- the header of version 1, or 24 bytes under that of version 2 with the four frame identifiers
-- in place and the checksum of the words before it in the last word.
pub valid-made_iff :
    (junk : ℕ) (stale : Bool) (buf : List ℕ) (size : ℕ)
    → IsBytes buf
    → size ≤ length buf
    → ((valid (made junk stale buf size)).0 ≡ true) ↔ (IsV1 buf size ⊎ IsV2 buf size)
unfolding valid
valid-made_iff junk stale buf size bytes h =
    elim (Bool-cases (field 0 4 buf == trigger_header_v1)) [
      | inl v1 ↦
          let e1 : field 0 4 buf ≡ trigger_header_v1 = (==_iff _ _).0 v1 in
          let p = verify_v1_iff (made junk stale buf size) (rw v1 refl) in
          (λ e. inl (e1, p.0 e), λ c. ground (arith, p))
      | inr not1 ↦ elim (Bool-cases (field 0 4 buf == trigger_header_v2)) [
        | inl v2 ↦
            let e2 : field 0 4 buf ≡ trigger_header_v2 = (==_iff _ _).0 v2 in
            let is2 : version_of (field 0 4 buf) ≡ 2 = rw (not1, v2) refl in
            (
              λ e.
                  let s : size ≡ 24 = verify_v2_size (made junk stale buf size) is2 e in
                  inr (
                    subst (IsV2 buf) (sym s) (
                      (sound_iff junk stale buf bytes (omega arith) e2).0
                        (subst (λ n. verify (made junk stale buf n) ≡ true) s e))),
              λ c. elim c [
                | inl w ↦ absurd (omega (arith, w.0, e2))
                | inr w ↦
                    subst (λ n. verify (made junk stale buf n) ≡ true) (sym w.1)
                      ((sound_iff junk stale buf bytes (omega (arith, w.1)) e2).1
                        (subst (IsV2 buf) w.1 w))
              ],
            )
        | inr not2 ↦ (
          λ e. cc (e, verify_unknown (made junk stale buf size) (rw (not1, not2) refl)),
          λ c. ground arith,
        )
      ]
    ]
