-- ===== src/Checksum.antt =====
-- EventFormats/EventFormats/FletcherChecksum.hpp: the checksum of TLB and tracker fragments, as
-- a running object and as a static function over a buffer whose last word is the checksum itself.
mod Fields
mod Sums
pub mod Laws
mod Tests
use faser_common.Common.{ℕ, zero, suc, ◌+◌, ◌-◌, ◌*◌, ◌/◌, ◌^◌, bit_and, bit_or, leb, if◌then◌else◌}
use faser_common.Common.{List, [], ◌∷◌, length, Result, ok, fault}
use faser_common.Common.Words.{u32, words}

pub record FletcherChecksum : Type 0 where
  pub m_checksum_l : ℕ
  pub m_checksum_h : ℕ

pub initialise_checksum : FletcherChecksum → FletcherChecksum
initialise_checksum c = record { m_checksum_l = 0; m_checksum_h = 0 }

pub add_data : FletcherChecksum → ℕ → FletcherChecksum
add_data c d =
    let l = u32 (c.m_checksum_l + d) in
    record { m_checksum_l = l; m_checksum_h = u32 (c.m_checksum_h + l) }

-- `checksumH >> (20-12)`, with the masks `0xFE0<<12`, `0x1F<<12` and `0xFFF<<12`.
pub compute_fletcher_checksum : ℕ → ℕ → ℕ
compute_fletcher_checksum checksum_h checksum_l =
    let assembled =
      bit_or (bit_and (checksum_h / 2 ^ (20 - 12)) (0xFE0 * 2 ^ 12))
        (bit_and checksum_h (0x1F * 2 ^ 12)) in
    bit_or (bit_and assembled (0xFFF * 2 ^ 12)) (bit_and checksum_l 0xFFF)

pub return_checksum : FletcherChecksum → ℕ
return_checksum c = compute_fletcher_checksum c.m_checksum_h c.m_checksum_l

-- The `for` loop with `rounds` still to go over the words that it has not reached.
pub checksum_loop : ℕ → List ℕ → FletcherChecksum → FletcherChecksum
checksum_loop zero ws c = c
checksum_loop (suc rounds) [] c = c
checksum_loop (suc rounds) (w ∷ ws) c =
    let l = u32 (c.m_checksum_l + w) in
    checksum_loop rounds ws (record { m_checksum_l = l; m_checksum_h = u32 (c.m_checksum_h + l) })

-- What the static function computes from the words that it has copied.
unfoldable pub checksum_of_words : List ℕ → ℕ
unfolding checksum_loop compute_fletcher_checksum
checksum_of_words ws =
    let sums = checksum_loop (length ws - 1) ws (record { m_checksum_l = 0; m_checksum_h = 0 }) in
    if leb (length ws) 1 then 0 else compute_fletcher_checksum sums.m_checksum_h sums.m_checksum_l

-- `ReturnFletcherChecksum`: the words are copied out of the buffer first, and a buffer with fewer
-- bytes than those is overrun.
unfoldable pub return_fletcher_checksum {ℓ} : {E : Type ℓ} → List ℕ → ℕ → Result E ℕ
unfolding checksum_of_words
return_fletcher_checksum buf size =
    if leb (4 * (size / 4)) (length buf)
    then ok (checksum_of_words (words (size / 4) buf))
    else fault
