-- ===== src/Checksum/Fields.antt =====
-- The masks and shifts of the final assembly as arithmetic.
use faser_common.Common.{ℕ, ◌+◌, ◌*◌, ◌/◌, ◌%◌, ◌^◌, ◌<◌, ◌≡◌, arith}
use faser_common.Common.Bits.{bit_or_fields, bit_and_shifted, bit_and_mask}
use faser_common.Checksum.{compute_fletcher_checksum}

abbrev assembled : ℕ → ℕ
assembled h = h / 2 ^ 8 / 2 ^ 17 % 2 ^ 7 * 2 ^ 17 + h / 2 ^ 12 % 2 ^ 5 * 2 ^ 12

-- The checksum keeps bits 25 to 31 and 12 to 16 of the high sum and bits 0 to 11 of the low sum.
pub compute_fletcher_checksum-fields :
    (h l : ℕ)
    → h < 2 ^ 32
    → compute_fletcher_checksum h l ≡ h / 2 ^ 25 * 2 ^ 17 + h / 2 ^ 12 % 32 * 2 ^ 12 + l % 2 ^ 12
unfolding compute_fletcher_checksum
compute_fletcher_checksum-fields h l fits =
    rw
      (
        bit_and_shifted 17 7 (h / 2 ^ 8),
        bit_and_shifted 12 5 h,
        bit_and_mask 12 l,
        bit_or_fields 17 (h / 2 ^ 8 / 2 ^ 17 % 2 ^ 7) (h / 2 ^ 12 % 2 ^ 5 * 2 ^ 12) (omega arith),
        bit_and_shifted 12 12 (assembled h),
        bit_or_fields 12 (assembled h / 2 ^ 12 % 2 ^ 12) (l % 2 ^ 12) (omega arith),
      )
      (omega arith)
