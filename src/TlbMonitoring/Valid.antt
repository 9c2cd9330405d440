-- ===== src/TlbMonitoring/Valid.antt =====
-- Which fragments are valid, and what the getters answer.
use faser_common.Common.{
  refl, ℕ, ◌%◌, ◌^◌, ◌≤◌, ◌<◌, ◌≡◌, ◌↔◌, ◌⊎◌, inl, inr, true, false, ok, throw, arith, ◌==◌, ◌||◌,
}
use faser_common.Common.{lt→ltb}
use faser_common.Common.Bits.{bit_and_mask}
use faser_common.TlbMonitoring.{TlbMonitoringFragment, index_out_of_range, data_not_valid, element}
use faser_common.TlbMonitoring.Access.{
  valid, verify, checksum, if_valid, Counter, counter, counter_word, Line, trig_line, line_words,
  has_checksum_error, has_frameid_error,
}
use faser_common.TlbMonitoring.Frames.{InRange, IsFramed, frame_check_iff, &&_iff}

-- A fragment of version 2: the sizes with and without the later counters, the checksum and the
-- frame identifiers.
abbrev pub IsSound : TlbMonitoringFragment → Type 0
IsSound f =
    (f.m_crc_calculated ≡ f.event.m_checksum % 2 ^ 24)
    × IsFramed f.event
    × ((f.m_size ≡ 120) ⊎ (f.m_size ≡ 112))

crc_iff :
    (f : TlbMonitoringFragment)
    → ((f.m_crc_calculated == checksum f) ≡ true)
      ↔ (f.m_crc_calculated ≡ f.event.m_checksum % 2 ^ 24)
unfolding checksum
crc_iff f = ground (arith, bit_and_mask 24 f.event.m_checksum)

size_iff : (n : ℕ) → ((n == 120 || n == 112) ≡ true) ↔ ((n ≡ 120) ⊎ (n ≡ 112))
size_iff n = ground arith

verify_v1_iff : (f : TlbMonitoringFragment) → f.m_version < 2 → (verify f ≡ true) ↔ (f.m_size ≡ 104)
unfolding verify
verify_v1_iff f h = ground arith

verify_v2_iff :
    (f : TlbMonitoringFragment)
    → InRange f.event
    → 2 ≤ f.m_version
    → f.m_version < 255
    → (verify f ≡ true) ↔ IsSound f
unfolding verify
verify_v2_iff f r lo hi =
    let known : (f.m_version == 0xff) ≡ false = ground arith in
    let frames = frame_check_iff f r lo in
    rw (known, lt→ltb 1 f.m_version (omega arith))
      (
        λ p.
            let (crc, more) = &&_iff.0 p in
            let (framed, sized) = &&_iff.0 more in
            ((crc_iff f).0 crc, frames.0 framed, (size_iff f.m_size).0 sized),
        λ c. &&_iff.1 ((crc_iff f).1 c.0, &&_iff.1 (frames.1 c.1, (size_iff f.m_size).1 c.2)),
      )

verify_unknown : (f : TlbMonitoringFragment) → f.m_version ≡ 255 → verify f ≡ false
unfolding verify
verify_unknown f h = rw h refl

valid-fresh : (f : TlbMonitoringFragment) → f.m_verified ≡ false → (valid f).0 ≡ verify f
unfolding valid
valid-fresh f h = rw h refl

-- A fragment that was not tested yet is valid exactly if it is one of version 1 with 104 bytes, or
-- one of version 2 with 120 or 112 bytes, a checksum that agrees with the one calculated, and a
-- frame identifier in place on each word that has one, those of the six trigger lines included;
-- where the version is 1, 2 or 255, the latter for an unknown header, which is never valid.
pub valid_iff :
    (f : TlbMonitoringFragment)
    → InRange f.event
    → f.m_verified ≡ false
    → (f.m_version ≡ 1) ⊎ ((f.m_version ≡ 2) ⊎ (f.m_version ≡ 255))
    → ((valid f).0 ≡ true)
      ↔ (((f.m_version ≡ 1) × (f.m_size ≡ 104)) ⊎ ((f.m_version ≡ 2) × IsSound f))
valid_iff f r fresh v = rw (valid-fresh f fresh) (elim v [
  | inl e ↦
      let p = verify_v1_iff f (omega arith) in
      (
        λ h. inl (e, p.0 h),
        λ c. elim c [ inl a ↦ p.1 a.1 | inr b ↦ absurd (omega (arith, e, b.0)) ],
      )
  | inr (inl e) ↦
      let p = verify_v2_iff f r (omega arith) (omega arith) in
      (
        λ h. inr (e, p.0 h),
        λ c. elim c [ inl a ↦ absurd (omega (arith, e, a.0)) | inr b ↦ p.1 b.1 ],
      )
  | inr (inr e) ↦ (
    λ h. cc (h, verify_unknown f e),
    λ c. elim c [ inl a ↦ absurd (omega (arith, e, a.0)) | inr b ↦ absurd (omega (arith, e, b.0)) ],
  )
])

-- A fragment of version 2 with one of the two sizes is valid exactly if neither of the two error
-- flags is up.
pub valid-errors_iff :
    (f : TlbMonitoringFragment)
    → f.m_verified ≡ false
    → f.m_version ≡ 2
    → (f.m_size ≡ 120) ⊎ (f.m_size ≡ 112)
    → ((valid f).0 ≡ true) ↔ ((has_checksum_error f ≡ false) × (has_frameid_error f ≡ false))
unfolding valid verify has_checksum_error has_frameid_error
valid-errors_iff f fresh v s = ground arith

-- A trigger line's counter: an index beyond the six lines is refused whatever the fragment; within
-- them, the word's low 24 bits are returned if the fragment is valid or in debug mode, and an
-- exception is thrown if not.
pub trig_line_answers :
    (l : Line) (f : TlbMonitoringFragment) (i : ℕ)
    → (6 ≤ i → (trig_line l f i).0 ≡ throw index_out_of_range)
      × (i < 6
          → ((valid f).0 ≡ true) ⊎ (f.m_debug ≡ true)
          → (trig_line l f i).0 ≡ ok (element (line_words l f.event) i % 2 ^ 24))
      × (i < 6
          → (valid f).0 ≡ false
          → f.m_debug ≡ false
          → (trig_line l f i).0 ≡ throw data_not_valid)
unfolding trig_line if_valid
trig_line_answers l f i =
    let word = bit_and_mask 24 (element (line_words l f.event) i) in
    (ground arith, λ inside v. ground (arith, word), λ inside v d. ground arith)

-- The other counters, in the same way.
counter_answers :
    (c : Counter) (f : TlbMonitoringFragment)
    → (((valid f).0 ≡ true) ⊎ (f.m_debug ≡ true)
        → (counter c f).0 ≡ ok (counter_word c f.event % 2 ^ 24))
      × ((valid f).0 ≡ false → f.m_debug ≡ false → (counter c f).0 ≡ throw data_not_valid)
unfolding counter if_valid
counter_answers c f =
    let word = bit_and_mask 24 (counter_word c f.event) in
    (λ v. ground (arith, word), λ v d. ground arith)
