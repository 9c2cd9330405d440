-- ===== src/Daq/Fragment/Codec.antt =====
-- The packed header: writing and reading it are inverse.
use faser_common.Common.{ℕ, ◌+◌, ◌≤◌, ◌≡◌, refl, List, ◌++◌, length, take, arith}
use faser_common.Common.Bytes.{IsBytes, le_bytes, slice, field, le_value-le_bytes}
use faser_common.Common.Bytes.{le_bytes-append_slice, le_bytes-field, field-lt}
use faser_common.Daq.Fragment.{EventFragmentHeader, header_bytes, header_of_bytes, IsHeader}

pub length-header_bytes : (h : EventFragmentHeader) → length (header_bytes h) ≡ 36
unfolding header_bytes
length-header_bytes h = refl

-- What is read is what was written.
pub header_of_bytes-header_bytes :
    (h : EventFragmentHeader) (rest : List ℕ)
    → IsHeader h
    → header_of_bytes (header_bytes h ++ rest) ≡ h
unfolding header_of_bytes header_bytes
header_of_bytes-header_bytes h rest v = λ i. record {
  marker = le_value-le_bytes 1 h.marker v.marker_fits i;
  fragment_tag = le_value-le_bytes 1 h.fragment_tag v.fragment_tag_fits i;
  trigger_bits = le_value-le_bytes 2 h.trigger_bits v.trigger_bits_fits i;
  version_number = le_value-le_bytes 2 h.version_number v.version_number_fits i;
  header_size = le_value-le_bytes 2 h.header_size v.header_size_fits i;
  payload_size = le_value-le_bytes 4 h.payload_size v.payload_size_fits i;
  source_id = le_value-le_bytes 4 h.source_id v.source_id_fits i;
  event_id = le_value-le_bytes 8 h.event_id v.event_id_fits i;
  bc_id = le_value-le_bytes 2 h.bc_id v.bc_id_fits i;
  status = le_value-le_bytes 2 h.status v.status_fits i;
  timestamp = le_value-le_bytes 8 h.timestamp v.timestamp_fits i;
}

module _ (buf : List ℕ) (hb : IsBytes buf) (long : 36 ≤ length buf) where
  join :
      (k n m : ℕ) (rest : List ℕ)
      → k + n ≤ 36
      → rest ≡ slice (k + n) m buf
      → le_bytes n (field k n buf) ++ rest ≡ slice k (n + m) buf
  join k n m rest h e = le_bytes-append_slice k n m buf rest hb (omega arith) e

  -- What is written is what was read.
  pub header_bytes-header_of_bytes : header_bytes (header_of_bytes buf) ≡ take 36 buf
  unfolding header_of_bytes header_bytes
  header_bytes-header_of_bytes = join 0 1 35 _ (omega arith) (
      join 1 1 34 _ (omega arith) (
        join 2 2 32 _ (omega arith) (
          join 4 2 30 _ (omega arith) (
            join 6 2 28 _ (omega arith) (
              join 8 4 24 _ (omega arith) (
                join 12 4 20 _ (omega arith) (
                  join 16 8 12 _ (omega arith) (
                    join 24 2 10 _ (omega arith)
                      (join 26 2 8 _ (omega arith) (le_bytes-field 28 8 buf hb long))))))))))

  in_range : (k n : ℕ) → k + n ≤ 36 → k + n ≤ length buf
  in_range k n h = omega arith

  pub header_of_bytes-IsHeader : IsHeader (header_of_bytes buf)
  unfolding header_of_bytes
  header_of_bytes-IsHeader = record {
    marker_fits = field-lt 0 1 buf hb (in_range 0 1 (omega arith));
    fragment_tag_fits = field-lt 1 1 buf hb (in_range 1 1 (omega arith));
    trigger_bits_fits = field-lt 2 2 buf hb (in_range 2 2 (omega arith));
    version_number_fits = field-lt 4 2 buf hb (in_range 4 2 (omega arith));
    header_size_fits = field-lt 6 2 buf hb (in_range 6 2 (omega arith));
    payload_size_fits = field-lt 8 4 buf hb (in_range 8 4 (omega arith));
    source_id_fits = field-lt 12 4 buf hb (in_range 12 4 (omega arith));
    event_id_fits = field-lt 16 8 buf hb (in_range 16 8 (omega arith));
    bc_id_fits = field-lt 24 2 buf hb (in_range 24 2 (omega arith));
    status_fits = field-lt 26 2 buf hb (in_range 26 2 (omega arith));
    timestamp_fits = field-lt 28 8 buf hb (in_range 28 8 (omega arith));
  }
