-- ===== src/TlbMonitoring/Tests.antt =====
-- A buffer of version 2 with all its identifiers and its checksum.
use faser_common.Common.{
  ℕ, ◌<◌, ◌≡◌, ◌↔◌, ◌⊎◌, inl, inr, refl, List, [], ◌∷◌, true, false, fault, arith,
}
use faser_common.Common.Words.{word_bytes}
use faser_common.TlbMonitoring.{
  TlbMonitoringFragment, make_fragment, event_of_bytes, frame_check, lines_check,
}
use faser_common.Checksum.{checksum_of_words}
use faser_common.TlbMonitoring.Access.{
  valid, verify, checksum, has_checksum_error, has_frameid_error,
}
use faser_common.TlbMonitoring.Frames.{InRange}
use faser_common.TlbMonitoring.Make.{made, make_fragment-faults}
use faser_common.TlbMonitoring.Valid.{IsSound, valid_iff, valid-errors_iff}

abbrev buffer : List ℕ
buffer = word_bytes (
    0xfead0005 ∷ 0x10000001 ∷ 0x4d ∷ 0x30000123 ∷ 0x40000000 ∷ 0x41000001 ∷ 0x42000002 ∷ 0x43000003
    ∷ 0x44000004 ∷ 0x45000005 ∷ 0x50000000 ∷ 0x51000002 ∷ 0x52000004 ∷ 0x53000006 ∷ 0x54000008
    ∷ 0x5500000a ∷ 0x60000000 ∷ 0x61000003 ∷ 0x62000006 ∷ 0x63000009 ∷ 0x6400000c ∷ 0x6500000f ∷ 0x1
    ∷ 0x2 ∷ 0x3 ∷ 0x4 ∷ 0x5 ∷ 0xf0000006 ∷ 0xf0000007 ∷ 0xd04b21ec ∷ [])

abbrev fragment : TlbMonitoringFragment
fragment = made 0 false buffer 120

is_valid : (valid fragment).0 ≡ true
unfolding valid verify checksum frame_check lines_check event_of_bytes checksum_of_words
is_valid = refl

fragment-InRange : InRange fragment.event
unfolding event_of_bytes
fragment-InRange = record {
  event_id_fits = omega arith;
  bc_id_fits = omega arith;
  tbp_fit = omega arith;
  tap_fit = omega arith;
  tav_fit = omega arith;
  tap_ored_fits = omega arith;
  tav_ored_fits = omega arith;
  checksum_fits = omega arith;
}

valid_iff_example : ((valid fragment).0 ≡ true) ↔ (
    ((fragment.m_version ≡ 1) × (fragment.m_size ≡ 104))
    ⊎ ((fragment.m_version ≡ 2) × IsSound fragment))
valid_iff_example = valid_iff fragment fragment-InRange refl (inr (inl refl))

valid-errors_iff_example :
    ((valid fragment).0 ≡ true)
    ↔ ((has_checksum_error fragment ≡ false) × (has_frameid_error fragment ≡ false))
valid-errors_iff_example = valid-errors_iff fragment refl refl (inl refl)

make_fragment-faults_example : (make_fragment 0 false buffer 120 ≡ fault) ↔ (120 < 4)
make_fragment-faults_example = make_fragment-faults 0 false buffer 120 (omega arith)
