-- ===== src/TlbData/Tests.antt =====
-- A payload of version 2, and the theorems at it.
use faser_common.Common.{
  ℕ, ◌<◌, ◌≡◌, ◌≢◌, ◌⊎◌, ◌↔◌, refl, arith, List, [], ◌∷◌, true, false, ok, fault,
}
use faser_common.Checksum.{return_fletcher_checksum, checksum_of_words}
use faser_common.Checksum.Laws.{sealed}
use faser_common.TlbData.{TlbDataFragment, make_fragment, event_of_bytes, valid, verify}
use faser_common.TlbData.Make.{made, make_fragment-fault_iff}
use faser_common.TlbData.Valid.{IsV1, IsV2, valid-made_iff}
use faser_common.TlbData.Detect.{valid-damaged}

abbrev payload_words : List ℕ
payload_words = 0xFEAD00A0 ∷ 0x10000007 ∷ 508490227 ∷ 0x3000067C ∷ 0xC4100201 ∷ []

-- The identifier of the checksum frame, and the checksum.
abbrev crc_word : ℕ
crc_word = 0xe0b9eb17

abbrev payload : List ℕ
payload = sealed payload_words crc_word

abbrev good : TlbDataFragment
good = made 0 true payload 24

good-valid : (valid good).0 ≡ true
unfolding valid verify event_of_bytes checksum_of_words
good-valid = refl

-- The constructor's result, a damaged payload, and an empty one.
constructed :
    (make_fragment 0 true payload 24 ≡ ok good)
    × ((valid (made 0 true (sealed payload_words 0) 24)).0 ≡ false)
    × (make_fragment 0 true [] 0 ≡ fault)
unfolding make_fragment return_fletcher_checksum valid verify event_of_bytes checksum_of_words
constructed = (refl, refl, refl)

bad-valid : (valid (made 0 true (sealed payload_words 0) 24)).0 ≡ false
unfolding valid verify event_of_bytes checksum_of_words
bad-valid = refl

make_fragment-fault_iff_example : (make_fragment 0 true (1 ∷ 2 ∷ []) 2 ≡ fault) ↔ (2 < 4)
make_fragment-fault_iff_example = make_fragment-fault_iff 0 true (1 ∷ 2 ∷ [])

valid-made_iff_example : ((valid good).0 ≡ true) ↔ (IsV1 payload 24 ⊎ IsV2 payload 24)
valid-made_iff_example = valid-made_iff 0 true payload 24 (omega arith) (omega arith)

abbrev bad : TlbDataFragment
bad = made 0 true (sealed payload_words 0) 24

valid-damaged_example :
    (valid (
      made 5 false
        (sealed (0xFEAD00A0 ∷ 0x10000008 ∷ 508490227 ∷ 0x3000067C ∷ 0xC4100201 ∷ []) crc_word)
        24)).0
    ≢ true
valid-damaged_example =
    valid-damaged 0 5 true false (0xFEAD00A0 ∷ []) (508490227 ∷ 0x3000067C ∷ 0xC4100201 ∷ [])
      0x10000007 0x10000008 crc_word refl (omega arith) (omega arith) (omega arith) (omega arith)
      good-valid
