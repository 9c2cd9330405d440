-- ===== src/TlbMonitoring/Frames.antt =====
-- What the frame check and the validity test ask of the words.
use faser_common.Common.{
  ℕ, zero, suc, ◌+◌, ◌*◌, ◌/◌, ◌^◌, ◌≤◌, ◌<◌, ◌≡◌, ◌↔◌, refl, List, [], ◌∷◌, All,
}
use native.Mathlib.Decide.{ℕ_discrete}
use faser_common.Common.{Bool, true, false, le→ltb_false, subst, ◌==◌, bit_and, bit_or, arith, ◌&&◌}
use faser_common.Common.Bits.{bit_and_shifted, bit_or_fields}
use faser_common.Common.Words.{IsU32}
use faser_common.TlbMonitoring.{
  TlbMonitoringFragment, TlbMonEvent, lines_check, frame_check, element,
}

-- A word whose highest four bits are `tag`.
tag_test :
    (x tag : ℕ) → x < 2 ^ 32 → ((bit_and x 0xF0000000 == tag * 2 ^ 28) ≡ true) ↔ (x / 2 ^ 28 ≡ tag)
tag_test x tag h = ground (arith, bit_and_shifted 28 4 x)

-- A word whose high byte is that of a trigger line.
line_test :
    (x tag i : ℕ)
    → x < 2 ^ 32
    → i < 16
    → ((bit_and x 0xFF000000 == bit_or (tag * 2 ^ 28) (i * 2 ^ 24)) ≡ true)
      ↔ (x / 2 ^ 24 ≡ 16 * tag + i)
line_test x tag i h hi =
    let field = bit_or_fields 28 tag (i * 2 ^ 24) (omega arith) in
    ground (arith, bit_and_shifted 24 8 x, field)

element-All : (P : ℕ → Type 0) (xs : List ℕ) (i : ℕ) → P 0 → All P xs → P (element xs i)
element-All P [] i z h = z
element-All P (x ∷ xs) zero z h = h.0
element-All P (x ∷ xs) (suc i) z h = element-All P xs i z h.1

-- The words of the event have 32 bits.
pub record InRange (e : TlbMonEvent) : Type 0 where
  pub event_id_fits : IsU32 e.m_event_id
  pub bc_id_fits : IsU32 e.m_bc_id
  pub tbp_fit : All IsU32 e.m_tbp
  pub tap_fit : All IsU32 e.m_tap
  pub tav_fit : All IsU32 e.m_tav
  pub tap_ored_fits : IsU32 e.m_tap_ored
  pub tav_ored_fits : IsU32 e.m_tav_ored
  pub checksum_fits : IsU32 e.m_checksum

-- The identifiers of trigger line `i`: 0x40, 0x50 and 0x60, each plus the number of the line.
abbrev pub IsLine : TlbMonEvent → ℕ → Type 0
IsLine e i =
    (element e.m_tbp i / 2 ^ 24 ≡ 0x40 + i)
    × (element e.m_tap i / 2 ^ 24 ≡ 0x50 + i)
    × (element e.m_tav i / 2 ^ 24 ≡ 0x60 + i)

abbrev pub IsFramed : TlbMonEvent → Type 0
IsFramed e =
    (e.m_event_id / 2 ^ 28 ≡ 1)
    × (e.m_bc_id / 2 ^ 28 ≡ 3)
    × ((i : ℕ) → i < 6 → IsLine e i)
    × (e.m_tap_ored / 2 ^ 28 ≡ 15)
    × (e.m_tav_ored / 2 ^ 28 ≡ 15)
    × (e.m_checksum / 2 ^ 28 ≡ 13)

both : (a b : Bool) → ((a && b) ≡ true) ↔ ((a ≡ true) × (b ≡ true))
both true b = (λ h. (refl, h), λ h. h.1)
both false b = (λ h. absurd cc, λ h. h.0)

pub &&_iff : {a b : Bool} → ((a && b) ≡ true) ↔ ((a ≡ true) × (b ≡ true))
&&_iff {a = a} {b = b} = both a b

lines_check_step :
    (left i : ℕ) (e : TlbMonEvent)
    → InRange e
    → i < 16
    → (lines_check (suc left) i e ≡ true) ↔ (IsLine e i × (lines_check left (i + 1) e ≡ true))
unfolding lines_check
lines_check_step left i e r hi =
    let b =
      line_test (element e.m_tbp i) 4 i (element-All IsU32 e.m_tbp i (omega arith) r.tbp_fit) hi in
    let a =
      line_test (element e.m_tap i) 5 i (element-All IsU32 e.m_tap i (omega arith) r.tap_fit) hi in
    let v =
      line_test (element e.m_tav i) 6 i (element-All IsU32 e.m_tav i (omega arith) r.tav_fit) hi in
    (
      λ h.
          let (hb, h') = &&_iff.0 h in
          let (ha, h'') = &&_iff.0 h' in
          let (hv, rest) = &&_iff.0 h'' in ((b.0 hb, a.0 ha, v.0 hv), rest),
      λ h. &&_iff.1 (b.1 h.0.0, &&_iff.1 (a.1 h.0.1, &&_iff.1 (v.1 h.0.2, h.1))),
    )

lines_check_iff :
    (left i : ℕ) (e : TlbMonEvent)
    → InRange e
    → i + left ≤ 16
    → (lines_check left i e ≡ true) ↔ ((j : ℕ) → i ≤ j → j < i + left → IsLine e j)
unfolding lines_check
lines_check_iff zero i e r h = (λ p j lo hi. absurd (omega arith), λ p. refl)
lines_check_iff (suc left) i e r h =
    let step = lines_check_step left i e r (omega arith) in
    let rest = lines_check_iff left (i + 1) e r (omega arith) in
    (
      λ p j lo hi. elim (ℕ_discrete i j) [
        | yes same ↦ subst (IsLine e) same (step.0 p).0
        | no ne ↦ rest.0 (step.0 p).1 j (omega arith) (omega arith)
      ],
      λ p.
          step.1
            (p i (omega arith) (omega arith), rest.1 (λ j lo hi. p j (omega arith) (omega arith))),
    )

pub frame_check_iff :
    (f : TlbMonitoringFragment)
    → InRange f.event
    → 2 ≤ f.m_version
    → (frame_check f ≡ true) ↔ IsFramed f.event
unfolding frame_check
frame_check_iff f r h =
    let e = f.event in
    let ids = tag_test e.m_event_id 1 r.event_id_fits in
    let bcs = tag_test e.m_bc_id 3 r.bc_id_fits in
    let lines = lines_check_iff 6 0 e r (omega arith) in
    let taps = tag_test e.m_tap_ored 15 r.tap_ored_fits in
    let tavs = tag_test e.m_tav_ored 15 r.tav_ored_fits in
    let crcs = tag_test e.m_checksum 13 r.checksum_fits in
    rw (le→ltb_false f.m_version 2 h) (
      λ p.
          let (p1, q1) = &&_iff.0 p in
          let (p2, q2) = &&_iff.0 q1 in
          let (p3, q3) = &&_iff.0 q2 in
          let (p4, q4) = &&_iff.0 q3 in
          let (p5, p6) = &&_iff.0 q4 in
          (
            ids.0 p1,
            bcs.0 p2,
            λ j hj. lines.0 p3 j (omega arith) (omega arith),
            taps.0 p4,
            tavs.0 p5,
            crcs.0 p6,
          ),
      λ c. &&_iff.1 (
        ids.1 c.0,
        &&_iff.1 (
          bcs.1 c.1,
          &&_iff.1 (
            lines.1 (λ j lo hi. c.2 j (omega arith)),
            &&_iff.1 (taps.1 c.3, &&_iff.1 (tavs.1 c.4, crcs.1 c.5)),
          ),
        ),
      ),
    )
