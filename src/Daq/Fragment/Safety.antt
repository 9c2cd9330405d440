-- ===== src/Daq/Fragment/Safety.antt =====
-- When the decoding constructor runs over the end of the buffer.
use faser_common.Common.{
  ℕ, ◌+◌, ◌^◌, ◌≤◌, ◌<◌, ◌≡◌, ◌⊎◌, ◌↔◌, inl, inr, List, length, Bool, arith, ◌∙◌, fault,
}
use native.Mathlib.Decide.{dec_lt}
use faser_common.Common.Bytes.{field}
use faser_common.Daq.Fragment.{decode_fragment, sizeof_header}
use faser_common.Daq.Fragment.Steps.{
  Passes, decode_fragment-Passes, copy_fragment_ok, copy_fragment_fault,
}

-- A buffer of at least `size` and less than 2 ^ 32 bytes that passes the constructor's tests is
-- overrun exactly when it is shorter than a header or the two sizes add up to 2 ^ 32 or more:
-- the tests look at the wrapped sum, and not at `sizeof(EventFragmentHeader)`.
pub decode_fragment-fault_iff :
    (buf : List ℕ) (size : ℕ) (allow : Bool)
    → Passes buf size allow
    → size ≤ length buf
    → length buf < 2 ^ 32
    → (decode_fragment buf size allow ≡ fault)
      ↔ ((2 ^ 32 ≤ field 6 2 buf + field 8 4 buf) ⊎ (length buf < sizeof_header))
decode_fragment-fault_iff buf size allow p h small = (
  λ e. elim (dec_lt (field 6 2 buf + field 8 4 buf) (2 ^ 32)) [
    | no big ↦ inl (omega arith)
    | yes fits ↦ elim (dec_lt (length buf) sizeof_header) [
      | yes short ↦ inr short
      | no long ↦ cc (
        e,
        decode_fragment-Passes buf size allow p,
        copy_fragment_ok buf (field 6 2 buf) (field 8 4 buf) (in_buffer fits) (omega arith),
      )
    ]
  ],
  λ c.
      decode_fragment-Passes buf size allow p
      ∙ copy_fragment_fault buf (field 6 2 buf) (field 8 4 buf) (beyond c),
)
  where
    in_buffer : field 6 2 buf + field 8 4 buf < 2 ^ 32 → field 6 2 buf + field 8 4 buf ≤ length buf
    in_buffer fits = omega (arith, p.fragment_in)

    beyond :
        (2 ^ 32 ≤ field 6 2 buf + field 8 4 buf) ⊎ (length buf < sizeof_header)
        → (length buf < field 6 2 buf + field 8 4 buf) ⊎ (length buf < sizeof_header)
    beyond c = ground arith
