-- ===== src/Checksum/Tests.antt =====
-- Runs of the checksum, and its theorems at concrete buffers.
use faser_common.Common.{
  ℕ, ◌+◌, ◌*◌, ◌/◌, ◌%◌, ◌^◌, ◌≡◌, ◌≢◌, refl, arith, List, [], ◌∷◌, ◌++◌, ok, fault,
}
use faser_common.Common.Words.{word_bytes}
use faser_common.Checksum.{
  FletcherChecksum, return_fletcher_checksum, return_checksum, checksum_loop,
  compute_fletcher_checksum,
}
use faser_common.Checksum.Sums.{total, partial_sums}
use faser_common.Checksum.Laws.{
  running, sealed, return_fletcher_checksum-running, return_fletcher_checksum-fields,
  return_fletcher_checksum-detects,
}

abbrev some_words : List ℕ
some_words = 0xFEAD00A0 ∷ 0x10000007 ∷ 0xFFFFFFFF ∷ []

abbrev dirty : FletcherChecksum
dirty = record { m_checksum_l = 17; m_checksum_h = 99 }

-- One word is all checksum, and a partial word is not looked at.
short_buffers :
    (return_fletcher_checksum {E = Unit {0}} (word_bytes (5 ∷ [])) 4 ≡ ok 0)
    × (return_fletcher_checksum {E = Unit {0}} (word_bytes (5 ∷ 9 ∷ []) ++ (1 ∷ [])) 9 ≡ ok 5)
    × (return_fletcher_checksum {E = Unit {0}} [] 4 ≡ fault)
unfolding return_fletcher_checksum checksum_loop compute_fletcher_checksum
short_buffers = (refl, refl, refl)

return_fletcher_checksum-running_example :
    return_fletcher_checksum {E = Unit {0}} (word_bytes (some_words ++ (1 ∷ [])) ++ (7 ∷ [])) 16
    ≡ ok (return_checksum (running dirty some_words))
return_fletcher_checksum-running_example =
    return_fletcher_checksum-running {E = Unit {0}} dirty some_words (7 ∷ []) 1 (omega arith)
      (omega arith)

return_fletcher_checksum-fields_example :
    return_fletcher_checksum {E = Unit {0}} (word_bytes (some_words ++ (1 ∷ [])) ++ []) 16
    ≡ ok (
        partial_sums 0 some_words % 2 ^ 32 / 2 ^ 25 * 2 ^ 17
        + partial_sums 0 some_words / 2 ^ 12 % 32 * 2 ^ 12
        + total some_words % 2 ^ 12)
return_fletcher_checksum-fields_example =
    return_fletcher_checksum-fields {E = Unit {0}} some_words [] 1 (omega arith) (omega arith)

return_fletcher_checksum-detects_example :
    return_fletcher_checksum {E = Unit {0}} (sealed (3 ∷ 4 ∷ 5 ∷ []) 1 ++ []) 16
    ≢ return_fletcher_checksum {E = Unit {0}} (sealed (3 ∷ 12 ∷ 5 ∷ []) 1 ++ []) 16
return_fletcher_checksum-detects_example =
    return_fletcher_checksum-detects {E = Unit {0}} (3 ∷ []) (5 ∷ []) [] 4 12 1 (omega arith)
      (omega arith) (omega arith) (omega arith)
