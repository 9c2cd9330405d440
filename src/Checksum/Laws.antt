-- ===== src/Checksum/Laws.antt =====
-- What the checksum of a buffer is, what it detects, and when the buffer is overrun.
use faser_common.Common.{
  ℕ, suc, ◌+◌, ◌-◌, ◌*◌, ◌/◌, ◌%◌, ◌^◌, ◌≤◌, ◌<◌, ◌≡◌, ◌≢◌, refl, ap, ◌∙◌, subst,
}
use faser_common.Common.{List, [], ◌∷◌, ◌++◌, length, length-append, All, All-append, arith}
use faser_common.Common.{ok, fault, le→leb, lt→leb_false}
use faser_common.Common.Words.{IsU32, words, word_bytes, length-word_bytes, words-word_bytes}
use faser_common.Checksum.{FletcherChecksum, initialise_checksum, return_checksum}
use faser_common.Checksum.{
  compute_fletcher_checksum, checksum_loop, checksum_of_words, return_fletcher_checksum,
}
use faser_common.Checksum.Fields.{compute_fletcher_checksum-fields}
use faser_common.Checksum.Sums.{
  total, partial_sums, add_all, add_all-low, add_all-high, checksum_loop-add_all,
}

pub return_fletcher_checksum-in_range {ℓ} :
    {E : Type ℓ} (buf : List ℕ) (size : ℕ)
    → 4 * (size / 4) ≤ length buf
    → return_fletcher_checksum {E = E} buf size ≡ ok (checksum_of_words (words (size / 4) buf))
unfolding return_fletcher_checksum
return_fletcher_checksum-in_range buf size h = rw (le→leb _ _ h)

pub return_fletcher_checksum-out_of_range {ℓ} :
    {E : Type ℓ} (buf : List ℕ) (size : ℕ)
    → length buf < 4 * (size / 4)
    → return_fletcher_checksum {E = E} buf size ≡ fault
unfolding return_fletcher_checksum
return_fletcher_checksum-out_of_range buf size h = rw (lt→leb_false _ _ h)

snoc-length : (ws : List ℕ) (w : ℕ) → length (ws ++ (w ∷ [])) ≡ suc (length ws)
snoc-length ws w = omega (arith, length-append ws (w ∷ []))

-- The object that `InitialiseChecksum` leaves after the given words were added.
abbrev pub running : FletcherChecksum → List ℕ → FletcherChecksum
running c ws = add_all (initialise_checksum c) ws

abbrev zero_sums : FletcherChecksum
zero_sums = record { m_checksum_l = 0; m_checksum_h = 0 }

checksum_of_words-loop :
    (n : ℕ) (ws : List ℕ)
    → length ws ≡ suc (suc n)
    → checksum_of_words ws ≡ return_checksum (checksum_loop (suc n) ws zero_sums)
unfolding checksum_of_words return_checksum
checksum_of_words-loop n ws e =
    let shorter : length ws - 1 ≡ suc n = omega arith in
    rw (lt→leb_false (length ws) 1 (omega arith), shorter)

-- The last word is left out.
checksum_of_words-snoc :
    (c : FletcherChecksum) (ws : List ℕ) (crc : ℕ)
    → checksum_of_words (ws ++ (crc ∷ [])) ≡ return_checksum (running c ws)
unfolding initialise_checksum
checksum_of_words-snoc c [] crc =
    unfold checksum_of_words return_checksum compute_fletcher_checksum in refl
checksum_of_words-snoc c (w ∷ ws) crc =
    checksum_of_words-loop (length ws) ((w ∷ ws) ++ (crc ∷ [])) (snoc-length (w ∷ ws) crc)
    ∙ ap return_checksum (checksum_loop-add_all (w ∷ ws) (crc ∷ []) zero_sums)

words-snoc :
    (ws more : List ℕ) (crc : ℕ)
    → All IsU32 ws
    → IsU32 crc
    → words (suc (length ws)) (word_bytes (ws ++ (crc ∷ [])) ++ more) ≡ ws ++ (crc ∷ [])
words-snoc ws more crc h hc =
    subst (λ (n : ℕ). words n (word_bytes (ws ++ (crc ∷ [])) ++ more) ≡ ws ++ (crc ∷ []))
      (snoc-length ws crc)
      (words-word_bytes (ws ++ (crc ∷ [])) more (All-append IsU32 ws (crc ∷ []) h (hc, tt)))

four_mul_div : (n : ℕ) → 4 * n / 4 ≡ n
four_mul_div n = omega arith

in_buffer :
    (ws more : List ℕ) (crc : ℕ)
    → 4 * (4 * suc (length ws) / 4) ≤ length (word_bytes (ws ++ (crc ∷ [])) ++ more)
in_buffer ws more crc = omega (
  arith,
  length-append (word_bytes (ws ++ (crc ∷ []))) more,
  length-word_bytes (ws ++ (crc ∷ [])),
  snoc-length ws crc,
)

-- The static function on a buffer of words agrees with the object to which all words but the
-- last are added one by one, whatever the object held before it was initialised and whatever
-- follows the words in memory.
pub return_fletcher_checksum-running {ℓ} :
    {E : Type ℓ} (c : FletcherChecksum) (ws more : List ℕ) (crc : ℕ)
    → All IsU32 ws
    → IsU32 crc
    → return_fletcher_checksum {E = E} (word_bytes (ws ++ (crc ∷ [])) ++ more) (4 * suc (length ws))
      ≡ ok (return_checksum (running c ws))
return_fletcher_checksum-running c ws more crc h hc =
    return_fletcher_checksum-in_range _ _ (in_buffer ws more crc)
    ∙ ap (λ (n : ℕ). ok (checksum_of_words (words n (word_bytes (ws ++ (crc ∷ [])) ++ more))))
        (four_mul_div (suc (length ws)))
    ∙ ap (λ t. ok (checksum_of_words t)) (words-snoc ws more crc h hc)
    ∙ ap ok (checksum_of_words-snoc c ws crc)

running-bounds :
    (c : FletcherChecksum) (ws : List ℕ)
    → ((running c ws).m_checksum_l ≡ total ws % 2 ^ 32)
      × ((running c ws).m_checksum_h ≡ partial_sums 0 ws % 2 ^ 32)
unfolding initialise_checksum
running-bounds c ws = (
  omega (arith, add_all-low ws (initialise_checksum c) 0 refl),
  omega (arith, add_all-high ws (initialise_checksum c) 0 0 refl refl),
)

-- The checksum of words `w₁ … wₙ` before the checksum word itself: bits 0 to 11 are the low bits
-- of their sum; bits 12 to 16 and 17 to 23 are bits 12 to 16 and 25 to 31 of the sum of all
-- partial sums, both sums taken with no wrap-around.
pub return_fletcher_checksum-fields {ℓ} :
    {E : Type ℓ} (ws more : List ℕ) (crc : ℕ)
    → All IsU32 ws
    → IsU32 crc
    → return_fletcher_checksum {E = E} (word_bytes (ws ++ (crc ∷ [])) ++ more) (4 * suc (length ws))
      ≡ ok (
          partial_sums 0 ws % 2 ^ 32 / 2 ^ 25 * 2 ^ 17
          + partial_sums 0 ws / 2 ^ 12 % 32 * 2 ^ 12
          + total ws % 2 ^ 12)
unfolding return_checksum
return_fletcher_checksum-fields ws more crc h hc =
    return_fletcher_checksum-running zero_sums ws more crc h hc
    ∙ ap ok (
        compute_fletcher_checksum-fields _ _ (omega (arith, running-bounds zero_sums ws))
        ∙ omega (arith, running-bounds zero_sums ws))

total-append : (xs ys : List ℕ) → total (xs ++ ys) ≡ total xs + total ys
total-append [] ys = omega arith
total-append (x ∷ xs) ys = omega (arith, total-append xs ys)

return_checksum-low :
    (c : FletcherChecksum) (ws : List ℕ)
    → return_checksum (running c ws) % 2 ^ 12 ≡ total ws % 2 ^ 12
unfolding return_checksum
return_checksum-low c ws = omega (
  arith,
  running-bounds c ws,
  compute_fletcher_checksum-fields (running c ws).m_checksum_h (running c ws).m_checksum_l
      (omega (arith, running-bounds c ws)),
)

-- The bytes of a fragment: its words, and its checksum word behind them.
abbrev pub sealed : List ℕ → ℕ → List ℕ
sealed ws crc = word_bytes (ws ++ (crc ∷ []))

-- Changing one word before the checksum word changes the checksum, if the change shows in the
-- word's low 12 bits.
pub return_fletcher_checksum-detects {ℓ} :
    {E : Type ℓ} (front back more : List ℕ) (w w' crc : ℕ)
    → All IsU32 (front ++ (w ∷ back))
    → All IsU32 (front ++ (w' ∷ back))
    → IsU32 crc
    → w % 2 ^ 12 ≢ w' % 2 ^ 12
    → return_fletcher_checksum {E = E}
        (sealed (front ++ (w ∷ back)) crc ++ more)
        (4 * suc (length (front ++ (w ∷ back))))
      ≢ return_fletcher_checksum {E = E}
          (sealed (front ++ (w' ∷ back)) crc ++ more)
          (4 * suc (length (front ++ (w' ∷ back))))
return_fletcher_checksum-detects front back more w w' crc h h' hc ne e = ne (
    omega (
      arith,
      return_checksum-low zero_sums (front ++ (w ∷ back)),
      return_checksum-low zero_sums (front ++ (w' ∷ back)),
      total-append front (w ∷ back),
      total-append front (w' ∷ back),
      same,
    ))
  where
    same :
        return_checksum (running zero_sums (front ++ (w ∷ back)))
        ≡ return_checksum (running zero_sums (front ++ (w' ∷ back)))
    same = cc (
      e,
      return_fletcher_checksum-running zero_sums (front ++ (w ∷ back)) more crc h hc,
      return_fletcher_checksum-running zero_sums (front ++ (w' ∷ back)) more crc h' hc,
    )
