-- ===== src/TlbData/Getters.antt =====
-- The answer of `valid` is kept, and the getters ask it.
use faser_common.Common.{
  ℕ, ◌/◌, ◌%◌, ◌^◌, ◌<◌, ◌≡◌, ◌⊎◌, Bool, true, false, if◌then◌else◌, ltb, ok, throw, arith,
}
use faser_common.Common.Bits.{bit_and_mask, bit_and_shifted}
use faser_common.Common.{ap, ◌∙◌, bit_and}
use faser_common.Common.Words.{u8}
use faser_common.TlbData.{mask_tap_v1, mask_tap_v2, mask_tbp}
use faser_common.TlbData.{
  TlbDataFragment, valid, if_valid, set_debug_on, orbit_id, tap, tbp, input_bits,
}
use faser_common.TlbData.{input_bits_next_clk, event_id, bc_id, orbits_lost_counter, data_not_valid}

-- Asking a second time gives the answer of the first and changes nothing more, also when the
-- debug flag was switched in between.
pub valid-valid :
    (f : TlbDataFragment) (debug : Bool)
    → (valid (valid f).1 ≡ valid f) × ((valid (set_debug_on debug (valid f).1)).0 ≡ (valid f).0)
unfolding valid set_debug_on
valid-valid f debug = (ground arith, ground arith)

if_valid_yes :
    (f : TlbDataFragment) (x : ℕ)
    → ((valid f).0 ≡ true) ⊎ (f.m_debug ≡ true)
    → (if_valid f x).0 ≡ ok x
unfolding if_valid
if_valid_yes f x h = ground arith

if_valid_no :
    (f : TlbDataFragment) (x : ℕ)
    → (valid f).0 ≡ false
    → f.m_debug ≡ false
    → (if_valid f x).0 ≡ throw data_not_valid
unfolding if_valid
if_valid_no f x v d = ground arith

six_bits : (x k : ℕ) → x < 2 ^ 16 → x / 2 ^ k % 2 ^ 6 < 2 ^ 8
six_bits x k h = omega arith

-- On a fragment that is valid, or in debug mode, the getters give the members' bit fields.
pub getters_valid :
    (f : TlbDataFragment)
    → f.event.m_tbptap < 2 ^ 16
    → ((valid f).0 ≡ true) ⊎ (f.m_debug ≡ true)
    → ((orbit_id f).0 ≡ ok f.event.m_orbit_id)
      × ((tap f).0
          ≡ ok (
              if ltb f.m_version 2
              then f.event.m_tbptap / 2 ^ 8 % 2 ^ 6
              else f.event.m_tbptap / 2 ^ 6 % 2 ^ 6))
      × ((tbp f).0 ≡ ok (f.event.m_tbptap % 2 ^ 6))
      × ((input_bits f).0 ≡ ok f.event.m_input_bits)
      × ((input_bits_next_clk f).0 ≡ ok f.event.m_input_bits_next_clk)
getters_valid f fits h = (
  if_valid_yes f _ h,
  if_valid_yes f _ h ∙ ap ok tap_value,
  if_valid_yes f _ h ∙ ap ok tbp_value,
  if_valid_yes f _ h,
  if_valid_yes f _ h,
)
  where
    tap_value :
        (if ltb f.m_version 0x2
          then u8 (bit_and f.event.m_tbptap mask_tap_v1 / 2 ^ 8)
          else u8 (bit_and f.event.m_tbptap mask_tap_v2 / 2 ^ 6))
        ≡ (if ltb f.m_version 2
            then f.event.m_tbptap / 2 ^ 8 % 2 ^ 6
            else f.event.m_tbptap / 2 ^ 6 % 2 ^ 6)
    tap_value =
        ground (arith, bit_and_shifted 8 6 f.event.m_tbptap, bit_and_shifted 6 6 f.event.m_tbptap)

    tbp_value : u8 (bit_and f.event.m_tbptap mask_tbp) ≡ f.event.m_tbptap % 2 ^ 6
    tbp_value = omega (arith, bit_and_mask 6 f.event.m_tbptap)

-- On one that is not valid, outside debug mode, they throw; event id, bunch crossing and lost
-- orbits can be read all the same.
pub getters_invalid :
    (f : TlbDataFragment)
    → (valid f).0 ≡ false
    → f.m_debug ≡ false
    → ((orbit_id f).0 ≡ throw data_not_valid)
      × ((tap f).0 ≡ throw data_not_valid)
      × ((tbp f).0 ≡ throw data_not_valid)
      × ((input_bits f).0 ≡ throw data_not_valid)
      × ((input_bits_next_clk f).0 ≡ throw data_not_valid)
      × (event_id f ≡ f.event.m_event_id % 2 ^ 24)
      × (bc_id f ≡ f.event.m_bc_id % 2 ^ 12)
      × (orbits_lost_counter f ≡ f.event.m_bc_id / 2 ^ 12 % 2 ^ 12)
getters_invalid f v d = (
  if_valid_no f _ v d,
  if_valid_no f _ v d,
  if_valid_no f _ v d,
  if_valid_no f _ v d,
  if_valid_no f _ v d,
  bit_and_mask 24 f.event.m_event_id,
  bit_and_mask 12 f.event.m_bc_id,
  omega (arith, bit_and_shifted 12 12 f.event.m_bc_id),
)
