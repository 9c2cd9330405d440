-- ===== src/TlbData/Detect.antt =====
-- A valid fragment of version 2 in which one word is damaged is not valid any more.
use faser_common.Common.{
  ℕ, suc, ◌*◌, ◌%◌, ◌^◌, ◌<◌, ◌≡◌, ◌≢◌, inl, inr, refl, sym, ap, ◌∙◌, List, [], ◌∷◌, ◌++◌,
}
use faser_common.Common.{
  append-nil, length, length-append, All, Bool, true, ok, arith, take, drop-append_length,
  All-append,
}
use faser_common.Common.Bytes.{
  IsBytes, field, le_bytes, le_value, le_value-le_bytes, le_bytes-IsBytes,
}
use faser_common.Common.Words.{IsU32, words, word_bytes, length-word_bytes}
use faser_common.Checksum.{checksum_of_words, return_fletcher_checksum}
use faser_common.Checksum.Laws.{
  sealed, return_fletcher_checksum-in_range, return_fletcher_checksum-detects,
}
use faser_common.TlbData.{TlbDataException, valid}
use faser_common.TlbData.Make.{made}
use faser_common.TlbData.Valid.{valid-made_iff}

word_bytes-append : (xs ys : List ℕ) → word_bytes (xs ++ ys) ≡ word_bytes xs ++ word_bytes ys
word_bytes-append [] ys = refl
word_bytes-append (x ∷ xs) ys = ap (λ t. le_bytes 4 x ++ t) (word_bytes-append xs ys)

word_bytes-IsBytes : (ws : List ℕ) → IsBytes (word_bytes ws)
word_bytes-IsBytes [] = tt
word_bytes-IsBytes (w ∷ ws) =
    All-append (λ b. b < 256) (le_bytes 4 w) (word_bytes ws) (le_bytes-IsBytes 4 w)
      (word_bytes-IsBytes ws)

module _ (ws : List ℕ) (crc : ℕ) (five : length ws ≡ 5) (fits : IsU32 crc) where
  length-sealed : length (sealed ws crc) ≡ 24
  length-sealed = omega (arith, length-word_bytes (ws ++ (crc ∷ [])), length-append ws (crc ∷ []))

  -- The last word of a sealed fragment is its checksum word.
  last_word : field 20 4 (sealed ws crc) ≡ crc
  last_word =
      ap (field 20 4) (word_bytes-append ws (crc ∷ []))
      ∙ ap (λ n. field n 4 (word_bytes ws ++ word_bytes (crc ∷ []))) {x = 20}
          (omega (arith, length-word_bytes ws))
      ∙ ap (λ t. le_value (take 4 t)) (drop-append_length (word_bytes ws) (word_bytes (crc ∷ [])))
      ∙ le_value-le_bytes 4 crc fits

  -- What the checksum of a valid fragment must be.
  crc_of_valid :
      (junk : ℕ) (stale : Bool)
      → (valid (made junk stale (sealed ws crc) 24)).0 ≡ true
      → checksum_of_words (words 6 (sealed ws crc)) ≡ crc % 2 ^ 24
  crc_of_valid junk stale e =
      elim ((valid-made_iff junk stale (sealed ws crc) 24 (word_bytes-IsBytes (ws ++ (crc ∷ [])))
          (omega (arith, length-sealed))).0
        e) [
          | inl w ↦ absurd (omega (arith, w.1))
          | inr w ↦ w.2 ∙ ap (λ (x : ℕ). x % 2 ^ 24) last_word
        ]

  static :
      return_fletcher_checksum {E = TlbDataException} (sealed ws crc ++ []) (4 * suc (length ws))
      ≡ ok (checksum_of_words (words 6 (sealed ws crc)))
  static =
      ap (λ t. return_fletcher_checksum t (4 * suc (length ws))) (append-nil (sealed ws crc))
      ∙ ap (λ (n : ℕ). return_fletcher_checksum (sealed ws crc) (4 * suc n)) five
      ∙ return_fletcher_checksum-in_range (sealed ws crc) 24 (omega (arith, length-sealed))

-- Of two fragments of 24 bytes that differ in one word before the checksum word, and there in the
-- low 12 bits, at most one is valid.
pub valid-damaged :
    (junk junk' : ℕ) (stale stale' : Bool) (front back : List ℕ) (w w' crc : ℕ)
    → length (front ++ (w ∷ back)) ≡ 5
    → All IsU32 (front ++ (w ∷ back))
    → All IsU32 (front ++ (w' ∷ back))
    → IsU32 crc
    → w % 2 ^ 12 ≢ w' % 2 ^ 12
    → (valid (made junk stale (sealed (front ++ (w ∷ back)) crc) 24)).0 ≡ true
    → (valid (made junk' stale' (sealed (front ++ (w' ∷ back)) crc) 24)).0 ≢ true
valid-damaged junk junk' stale stale' front back w w' crc five h h' hc ne e e' =
    let five' : length (front ++ (w' ∷ back)) ≡ 5 =
      omega (arith, five, length-append front (w ∷ back), length-append front (w' ∷ back)) in
    return_fletcher_checksum-detects {E = TlbDataException} front back [] w w' crc h h' hc ne (
      static (front ++ (w ∷ back)) crc five hc
      ∙ ap ok (
          crc_of_valid (front ++ (w ∷ back)) crc five hc junk stale e
          ∙ sym (crc_of_valid (front ++ (w' ∷ back)) crc five' hc junk' stale' e'))
      ∙ sym (static (front ++ (w' ∷ back)) crc five' hc))
