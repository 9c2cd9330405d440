-- ===== src/TlbData/Make.antt =====
-- The constructor: when it overruns its buffer, and what it holds of the buffer.
use faser_common.Common.{ℕ, ◌/◌, ◌≤◌, ◌<◌, ◌≡◌, ◌↔◌, refl, List, ◌++◌, length, min, drop, arith}
use faser_common.Common.{Bool, false, ok, fault, lt→leb_false}
use native.Mathlib.Decide.{dec_lt}
use faser_common.Common.Bytes.{slice, field, load-in_range, load_bytes-in_range}
use faser_common.Common.Words.{words}
use faser_common.Checksum.{checksum_of_words}
use faser_common.Checksum.Laws.{return_fletcher_checksum-in_range}
use faser_common.TlbData.{
  TlbDataFragment, make_fragment, event_of_bytes, initial_image, version_of, sizeof_event,
}

-- The object that is made of a buffer that is long enough.
abbrev pub made : ℕ → Bool → List ℕ → ℕ → TlbDataFragment
made junk stale buf size = record {
  event =
      event_of_bytes
        (slice 0 (min size sizeof_event) buf ++ drop (min size sizeof_event) (initial_image junk));
  m_size = size;
  m_version = version_of (field 0 4 buf);
  m_debug = false;
  m_crc_calculated = checksum_of_words (words (size / 4) buf);
  m_verified = false;
  m_valid = stale;
}

pub make_fragment_ok :
    (junk : ℕ) (stale : Bool) (buf : List ℕ) (size : ℕ)
    → size ≤ length buf
    → 4 ≤ length buf
    → make_fragment junk stale buf size ≡ ok (made junk stale buf size)
unfolding make_fragment
make_fragment_ok junk stale buf size h k =
    rw
      (
        load_bytes-in_range buf 0 (min size 24) (omega arith),
        load-in_range buf 0 4 (omega arith),
        return_fletcher_checksum-in_range buf size (omega arith),
      )
      refl

-- Constructing a fragment from a payload and its size reads behind the payload exactly when that
-- has fewer than the 4 bytes of the word by which the version is told; there is no test for it.
pub make_fragment-fault_iff :
    (junk : ℕ) (stale : Bool) (buf : List ℕ)
    → (make_fragment junk stale buf (length buf) ≡ fault) ↔ (length buf < 4)
make_fragment-fault_iff junk stale buf = (
  λ e. elim (dec_lt (length buf) 4) [
    | yes short ↦ short
    | no long ↦ cc (e, make_fragment_ok junk stale buf (length buf) (omega arith) (omega arith))
  ],
  λ short. too_short short,
)
  where
    too_short : length buf < 4 → make_fragment junk stale buf (length buf) ≡ fault
    too_short short =
        unfold make_fragment in
        rw
          (
            load_bytes-in_range buf 0 (min (length buf) 24) (omega arith),
            lt→leb_false 4 (length buf) short,
          )
          refl
