-- ===== src/Daq/Fragment/Steps.antt =====
-- The branches of the decoding constructor, by the fields that it reads from the buffer.
use faser_common.Common.{ℕ, ◌+◌, ◌≤◌, ◌<◌, ◌≡◌, ◌⊎◌, ap, ◌∙◌, List, length, Bool, true, arith}
use faser_common.Common.{ok, fault, >>=-eq-ok, le→leb}
use faser_common.Common.Bytes.{slice, field}
use faser_common.Common.Words.{u32}
use faser_common.Daq.Fragment.{EventFragment, header_of_bytes, fragment_marker}
use faser_common.Daq.Fragment.{check_version, check_sizes, copy_fragment, decode_fragment}
use faser_common.Daq.Fragment.{fragment_version_latest, sizeof_header}

-- What the constructor asks of a buffer before it copies the payload.
pub record Passes (buf : List ℕ) (size : ℕ) (allow : Bool) : Type 0 where
  pub not_tiny : 8 ≤ size
  pub marked : field 0 1 buf ≡ fragment_marker
  pub versioned : field 4 2 buf ≡ fragment_version_latest
  pub header_in : field 6 2 buf ≤ size
  pub sizes_readable : 12 ≤ length buf
  pub fragment_in : u32 (field 6 2 buf + field 8 4 buf) ≤ size
  pub exact : (size ≡ u32 (field 6 2 buf + field 8 4 buf)) ⊎ (allow ≡ true)

abbrev sizes_of : List ℕ → ℕ × ℕ
sizes_of buf = (field 6 2 buf, field 8 4 buf)

module _ (buf : List ℕ) (size : ℕ) where
  check_version_ok :
      8 ≤ size
      → 8 ≤ length buf
      → field 0 1 buf ≡ fragment_marker
      → field 4 2 buf ≡ fragment_version_latest
      → check_version buf size ≡ ok tt
  unfolding check_version
  check_version_ok h k m v = ground arith

  check_version_inv :
      (u : Unit {0})
      → check_version buf size ≡ ok u
      → (8 ≤ size) × (field 0 1 buf ≡ fragment_marker) × (field 4 2 buf ≡ fragment_version_latest)
  unfolding check_version
  check_version_inv u e = ground arith

  check_sizes_ok :
      (allow : Bool)
      → 12 ≤ length buf
      → field 6 2 buf ≤ size
      → u32 (field 6 2 buf + field 8 4 buf) ≤ size
      → (size ≡ u32 (field 6 2 buf + field 8 4 buf)) ⊎ (allow ≡ true)
      → check_sizes buf size allow ≡ ok (sizes_of buf)
  unfolding check_sizes
  check_sizes_ok allow k h f x = ground arith

  check_sizes_inv :
      (allow : Bool) (s : ℕ × ℕ)
      → check_sizes buf size allow ≡ ok s
      → (12 ≤ length buf)
        × (field 6 2 buf ≤ size)
        × (u32 (field 6 2 buf + field 8 4 buf) ≤ size)
        × ((size ≡ u32 (field 6 2 buf + field 8 4 buf)) ⊎ (allow ≡ true))
        × (sizes_of buf ≡ s)
  unfolding check_sizes
  check_sizes_inv allow s e = ground arith

module _ (buf : List ℕ) (size : ℕ) (allow : Bool) where
  -- A buffer that passes the tests is copied, or overrun.
  pub decode_fragment-Passes :
      Passes buf size allow → decode_fragment buf size allow ≡ copy_fragment buf (sizes_of buf)
  unfolding decode_fragment
  decode_fragment-Passes p = rw (
    check_version_ok buf size p.not_tiny (omega arith) p.marked p.versioned,
    check_sizes_ok buf size allow p.sizes_readable p.header_in p.fragment_in p.exact,
  )

  pub decode_fragment_inv :
      (f : EventFragment)
      → decode_fragment buf size allow ≡ ok f
      → Passes buf size allow × (copy_fragment buf (sizes_of buf) ≡ ok f)
  unfolding decode_fragment
  decode_fragment_inv f e =
      let (u, ev, e') = >>=-eq-ok (check_version buf size) _ e in
      let (s, es, ec) = >>=-eq-ok (check_sizes buf size allow) (copy_fragment buf) e' in
      let (a, b, c) = check_version_inv buf size u ev in
      let (k, h, t, x, q) = check_sizes_inv buf size allow s es in
      (
        record {
          not_tiny = a;
          marked = b;
          versioned = c;
          header_in = h;
          sizes_readable = k;
          fragment_in = t;
          exact = x;
        },
        ap (copy_fragment buf) q ∙ ec,
      )

module _ (buf : List ℕ) (hs ps : ℕ) where
  pub copy_fragment_ok :
      hs + ps ≤ length buf
      → sizeof_header ≤ length buf
      → copy_fragment buf (hs, ps)
        ≡ ok (record { header = header_of_bytes buf; fragment = slice hs ps buf })
  unfolding copy_fragment
  copy_fragment_ok h k = rw (le→leb _ _ h, le→leb _ _ k)

  pub copy_fragment_fault :
      (length buf < hs + ps) ⊎ (length buf < sizeof_header) → copy_fragment buf (hs, ps) ≡ fault
  unfolding copy_fragment
  copy_fragment_fault h = ground arith

  pub copy_fragment_inv :
      (f : EventFragment)
      → copy_fragment buf (hs, ps) ≡ ok f
      → (hs + ps ≤ length buf)
        × (sizeof_header ≤ length buf)
        × (record { header = header_of_bytes buf; fragment = slice hs ps buf } ≡ f)
  unfolding copy_fragment
  copy_fragment_inv f e = ground arith
