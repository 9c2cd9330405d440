-- ===== src/TlbMonitoring/Make.antt =====
-- The constructor: when it leaves its buffer, and what it takes from it.
use faser_common.Common.{
  ℕ, ◌-◌, ◌*◌, ◌/◌, ◌≤◌, ◌<◌, ◌≡◌, ◌↔◌, ◌⊎◌, inl, inr, refl, List, ◌++◌, length, Bool, true, false,
  min, drop, ok, fault, arith,
}
use faser_common.Common.{Bool-cases, leb, ◌==◌, if◌then◌else◌, le→ltb_false, lt→ltb}
use native.Mathlib.Decide.{dec_lt}
use faser_common.Common.Bytes.{field, slice, load-in_range, load_bytes-in_range}
use faser_common.Common.Words.{words}
use faser_common.Checksum.{checksum_of_words}
use faser_common.Checksum.Laws.{return_fletcher_checksum-in_range}
use faser_common.TlbMonitoring.{
  TlbMonException, TlbMonitoringFragment, make_fragment, fill_image, copy_over, last_word,
  initial_image, version_of, event_of_bytes, monitoring_header_v1, monitoring_header_v2,
}

-- The number of bytes that are copied.
abbrev pub copied : ℕ → ℕ → ℕ
copied d0 size =
    if d0 == monitoring_header_v1
    then min size 104
    else if d0 == monitoring_header_v2
    then min size 120 - 4
    else 0

copy_over-in_range :
    (n : ℕ) (buf image : List ℕ)
    → n ≤ length buf
    → copy_over n buf image ≡ ok (slice 0 n buf ++ drop n image)
unfolding copy_over
copy_over-in_range n buf image h =
    rw (load_bytes-in_range {E = TlbMonException} buf 0 n (omega arith)) refl

fill_image-in_range :
    (d0 : ℕ) (buf image : List ℕ) (size : ℕ)
    → size ≤ length buf
    → 4 ≤ size
    → fill_image d0 buf size image
      ≡ ok (slice 0 (copied d0 size) buf ++ drop (copied d0 size) image)
unfolding fill_image
fill_image-in_range d0 buf image size h big = elim (Bool-cases (d0 == monitoring_header_v1)) [
  | inl v1 ↦ rw v1 (copy_over-in_range (min size 104) buf image (omega arith))
  | inr not1 ↦ elim (Bool-cases (d0 == monitoring_header_v2)) [
    | inl v2 ↦
        rw (not1, v2, le→ltb_false (min size 120) 4 (omega arith))
          (copy_over-in_range (min size 120 - 4) buf image (omega arith))
    | inr not2 ↦ rw (not1, not2) refl
  ]
]

last_word-in_range :
    (buf : List ℕ) (size : ℕ)
    → size ≤ length buf
    → 4 ≤ size
    → last_word buf size ≡ ok (field (4 * (size / 4 - 1)) 4 buf)
unfolding last_word
last_word-in_range buf size h big =
    let some_word : (size / 4 == 0) ≡ false = ground arith in
    rw (some_word, load-in_range {E = TlbMonException} buf (4 * (size / 4 - 1)) 4 (omega arith))
      refl

-- The object that is made of a buffer with one word at least.
abbrev pub made : ℕ → Bool → List ℕ → ℕ → TlbMonitoringFragment
made junk stale buf size =
    let n = copied (field 0 4 buf) size in
    record {
      event = record (event_of_bytes (slice 0 n buf ++ drop n (initial_image junk))) {
        m_checksum = field (4 * (size / 4 - 1)) 4 buf;
      };
      m_size = size;
      m_version = version_of (field 0 4 buf);
      m_debug = false;
      m_crc_calculated = checksum_of_words (words (size / 4) buf);
      m_verified = false;
      m_valid = stale;
    }

pub make_fragment_ok :
    (junk : ℕ) (stale : Bool) (buf : List ℕ) (size : ℕ)
    → size ≤ length buf
    → 4 ≤ size
    → make_fragment junk stale buf size ≡ ok (made junk stale buf size)
unfolding make_fragment
make_fragment_ok junk stale buf size h big =
    rw
      (
        load-in_range {E = TlbMonException} buf 0 4 (omega arith),
        fill_image-in_range (field 0 4 buf) buf (initial_image junk) size h big,
        last_word-in_range buf size h big,
        return_fletcher_checksum-in_range {E = TlbMonException} buf size (omega arith),
      )
      refl

fill_image-small :
    (d0 : ℕ) (buf image : List ℕ) (size : ℕ)
    → size ≤ length buf
    → size < 4
    → ((img : List ℕ) × (fill_image d0 buf size image ≡ ok img))
      ⊎ (fill_image d0 buf size image ≡ fault)
unfolding fill_image
fill_image-small d0 buf image size h small = elim (Bool-cases (d0 == monitoring_header_v1)) [
  | inl v1 ↦ inl (
    slice 0 (min size 104) buf ++ drop (min size 104) image,
    rw v1 (copy_over-in_range (min size 104) buf image (omega arith)),
  )
  | inr not1 ↦ elim (Bool-cases (d0 == monitoring_header_v2)) [
    | inl v2 ↦ inr (rw (not1, v2, lt→ltb (min size 120) 4 (omega arith)) refl)
    | inr not2 ↦ inl (image, rw (not1, not2) refl)
  ]
]

last_word-small : (buf : List ℕ) (size : ℕ) → size < 4 → last_word buf size ≡ fault
unfolding last_word
last_word-small buf size h = let no_word : (size / 4 == 0) ≡ true = ground arith in rw no_word refl

make_fragment-small :
    (junk : ℕ) (stale : Bool) (buf : List ℕ) (size : ℕ)
    → size ≤ length buf
    → size < 4
    → make_fragment junk stale buf size ≡ fault
unfolding make_fragment
make_fragment-small junk stale buf size h small = elim (Bool-cases (leb 4 (length buf))) [
  | inr short ↦ rw short refl
  | inl long ↦ elim (fill_image-small (field 0 4 buf) buf (initial_image junk) size h small) [
    | inl (img, e) ↦ rw (long, e, last_word-small buf size small) refl
    | inr e ↦ rw (long, e) refl
  ]
]

-- Of a buffer with the size given, the constructor leaves the bounds exactly if there is not one
-- whole word: it reads the first and the last with no test of the size.
pub make_fragment-faults :
    (junk : ℕ) (stale : Bool) (buf : List ℕ) (size : ℕ)
    → size ≤ length buf
    → (make_fragment junk stale buf size ≡ fault) ↔ (size < 4)
make_fragment-faults junk stale buf size h = (
  λ e. elim (dec_lt size 4) [
    | yes small ↦ small
    | no big ↦ cc (e, make_fragment_ok junk stale buf size h (omega arith))
  ],
  λ small. make_fragment-small junk stale buf size h small,
)
