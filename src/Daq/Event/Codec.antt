-- ===== src/Daq/Event/Codec.antt =====
-- The packed event header: writing and reading it are inverse.
use faser_common.Common.{ℕ, ◌+◌, ◌≤◌, ◌≡◌, refl, List, ◌++◌, length, take, arith}
use faser_common.Common.Bytes.{IsBytes, le_bytes, slice, field, le_value-le_bytes}
use faser_common.Common.Bytes.{le_bytes-append_slice, le_bytes-field}
use faser_common.Daq.Event.Defs.{EventHeader, header_bytes, header_of_bytes, IsHeader}

pub length-header_bytes : (h : EventHeader) → length (header_bytes h) ≡ 44
unfolding header_bytes
length-header_bytes h = refl

-- What is read is what was written.
pub header_of_bytes-header_bytes :
    (h : EventHeader) (rest : List ℕ) → IsHeader h → header_of_bytes (header_bytes h ++ rest) ≡ h
unfolding header_of_bytes header_bytes
header_of_bytes-header_bytes h rest v = λ i. record {
  marker = le_value-le_bytes 1 h.marker v.marker_fits i;
  event_tag = le_value-le_bytes 1 h.event_tag v.event_tag_fits i;
  trigger_bits = le_value-le_bytes 2 h.trigger_bits v.trigger_bits_fits i;
  version_number = le_value-le_bytes 2 h.version_number v.version_number_fits i;
  header_size = le_value-le_bytes 2 h.header_size v.header_size_fits i;
  payload_size = le_value-le_bytes 4 h.payload_size v.payload_size_fits i;
  fragment_count = le_value-le_bytes 1 h.fragment_count v.fragment_count_fits i;
  run_number = le_value-le_bytes 3 h.run_number v.run_number_fits i;
  event_id = le_value-le_bytes 8 h.event_id v.event_id_fits i;
  event_counter = le_value-le_bytes 8 h.event_counter v.event_counter_fits i;
  bc_id = le_value-le_bytes 2 h.bc_id v.bc_id_fits i;
  status = le_value-le_bytes 2 h.status v.status_fits i;
  timestamp = le_value-le_bytes 8 h.timestamp v.timestamp_fits i;
}

module _ (buf : List ℕ) (hb : IsBytes buf) (long : 44 ≤ length buf) where
  join :
      (k n m : ℕ) (rest : List ℕ)
      → k + n ≤ 44
      → rest ≡ slice (k + n) m buf
      → le_bytes n (field k n buf) ++ rest ≡ slice k (n + m) buf
  join k n m rest h e = le_bytes-append_slice k n m buf rest hb (omega arith) e

  -- What is written is what was read.
  pub header_bytes-header_of_bytes : header_bytes (header_of_bytes buf) ≡ take 44 buf
  unfolding header_of_bytes header_bytes
  header_bytes-header_of_bytes = join 0 1 43 _ (omega arith) (
      join 1 1 42 _ (omega arith) (
        join 2 2 40 _ (omega arith) (
          join 4 2 38 _ (omega arith) (
            join 6 2 36 _ (omega arith) (
              join 8 4 32 _ (omega arith) (
                join 12 1 31 _ (omega arith) (
                  join 13 3 28 _ (omega arith) (
                    join 16 8 20 _ (omega arith) (
                      join 24 8 12 _ (omega arith) (
                        join 32 2 10 _ (omega arith)
                          (join 34 2 8 _ (omega arith) (le_bytes-field 36 8 buf hb long))))))))))))
