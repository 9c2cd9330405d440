-- ===== src/Daq/Event/RoundTrip.antt =====
-- An event that is written is read back, from a stream and from a buffer.
use faser_common.Common.{ℕ, ◌+◌, ◌-◌, ◌^◌, ◌≤◌, ◌<◌, ◌≡◌, refl, sym, ap, ◌∙◌, List, [], ◌++◌}
use faser_common.Common.{
  append_assoc, append-nil, length, length-append, take, drop, take-append_length,
  drop-append_length,
}
use faser_common.Common.{ok, arith, le→ltb_false, ==_refl}
use faser_common.Common.OrderedMap.{sum_values}
use faser_common.Common.Bytes.{load_bytes-in_range}
use faser_common.Common.Words.{u32}
use faser_common.Daq.Event.Defs.{
  EventFull, EventHeader, header_bytes, header_of_bytes, IsEvent, size_of, raw, read_event,
}
use faser_common.Daq.Event.Defs.{
  check_header, bytes_of, event_marker, event_version_latest, load_fragments, event_of_bytes,
}
use faser_common.Daq.Event.Codec.{length-header_bytes, header_of_bytes-header_bytes}
use faser_common.Daq.Event.Load.{
  fragment_bytes, append_fragments-eq, length-fragment_bytes, load_fragments-bytes,
}

raw-eq : (ev : EventFull) → raw ev ≡ header_bytes ev.header ++ fragment_bytes ev.fragments
unfolding raw
raw-eq ev = append_fragments-eq ev.fragments (header_bytes ev.header)

pub length-raw : (ev : EventFull) → length (raw ev) ≡ 44 + sum_values bytes_of ev.fragments
length-raw ev =
    ap length (raw-eq ev)
    ∙ omega (
      arith,
      length-append (header_bytes ev.header) (fragment_bytes ev.fragments),
      length-header_bytes ev.header,
      length-fragment_bytes ev.fragments,
    )

check_header_ok :
    (h : EventHeader)
    → h.marker ≡ event_marker
    → h.version_number ≡ event_version_latest
    → check_header h ≡ ok tt
unfolding check_header
check_header_ok h m v = rw (m, v)

module _ (ev : EventFull) (rest : List ℕ) (v : IsEvent ev) where
  -- The size that a well-formed event reports is the number of its bytes.
  pub size_of-raw : ev.header.payload_size < 2 ^ 32 - 44 → size_of ev ≡ length (raw ev)
  size_of-raw h = omega (arith, length-raw ev, v.header_measured, v.payload_measured)

  split : raw ev ++ rest ≡ header_bytes ev.header ++ (fragment_bytes ev.fragments ++ rest)
  split = ap (λ t. t ++ rest) (raw-eq ev) ∙ append_assoc (header_bytes ev.header) _ rest

  header_back : header_of_bytes (raw ev ++ rest) ≡ ev.header
  header_back =
      ap header_of_bytes split
      ∙ header_of_bytes-header_bytes ev.header (fragment_bytes ev.fragments ++ rest) v.header_fits

  behind : drop 44 (raw ev ++ rest) ≡ fragment_bytes ev.fragments ++ rest
  unfolding header_bytes
  behind = ap (drop 44) split

  payload_length : ev.header.payload_size ≡ length (fragment_bytes ev.fragments)
  payload_length = v.payload_measured ∙ sym (length-fragment_bytes ev.fragments)

  taken :
      take ev.header.payload_size (fragment_bytes ev.fragments ++ rest)
      ≡ fragment_bytes ev.fragments
  taken =
      ap (λ n. take n (fragment_bytes ev.fragments ++ rest)) payload_length
      ∙ take-append_length (fragment_bytes ev.fragments) rest

  dropped : drop ev.header.payload_size (fragment_bytes ev.fragments ++ rest) ≡ rest
  dropped =
      ap (λ n. drop n (fragment_bytes ev.fragments ++ rest)) payload_length
      ∙ drop-append_length (fragment_bytes ev.fragments) rest

  loaded :
      (more : List ℕ)
      → load_fragments ev.header.fragment_count
          (fragment_bytes ev.fragments ++ more)
          ev.header.payload_size
          []
        ≡ ok ev.fragments
  loaded more =
      ap (λ n. load_fragments n (fragment_bytes ev.fragments ++ more) ev.header.payload_size [])
        v.counted
      ∙ load_fragments-bytes ev.fragments [] more ev.header.payload_size v.entries v.sorted
          (omega (arith, v.payload_measured))

  loaded_exactly :
      load_fragments ev.header.fragment_count
        (fragment_bytes ev.fragments)
        ev.header.payload_size
        []
      ≡ ok ev.fragments
  loaded_exactly =
      ap (λ t. load_fragments ev.header.fragment_count t ev.header.payload_size [])
        (sym (append-nil (fragment_bytes ev.fragments)))
      ∙ loaded []

  -- Reading the bytes of a well-formed event from a stream gives the event back and leaves the
  -- stream behind them, if its payload is within the reader's limit of 1000000 bytes.
  pub read_event-raw :
      ev.header.payload_size ≤ 1000000 → read_event (raw ev ++ rest) ≡ ok (ev, rest)
  unfolding read_event
  read_event-raw h =
      rw
        (
          header_back,
          behind,
          le→ltb_false (length (raw ev ++ rest)) 44
              (omega (arith, length-append (raw ev) rest, length-raw ev)),
          check_header_ok ev.header v.marked v.versioned,
          le→ltb_false 1000000 ev.header.payload_size h,
          le→ltb_false (length (fragment_bytes ev.fragments ++ rest)) ev.header.payload_size
              (omega (arith, length-append (fragment_bytes ev.fragments) rest, payload_length)),
          taken,
          dropped,
          loaded_exactly,
        )
        refl

  behind_header : drop ev.header.header_size (raw ev ++ rest) ≡ fragment_bytes ev.fragments ++ rest
  behind_header = ap (λ n. drop n (raw ev ++ rest)) v.header_measured ∙ behind

  left_over :
      ev.header.payload_size < 2 ^ 32 - 44
      → u32 (size_of ev + 2 ^ 64 - ev.header.header_size) ≡ ev.header.payload_size
  left_over h = omega (arith, v.header_measured)

  -- Constructing a well-formed event from its bytes in a buffer, with the size that it reports, gives
  -- the event back, whatever its members held before and whatever follows in the buffer, if its
  -- payload is below 2 ^ 32 - 44 bytes.
  pub event_of_bytes-raw :
      (junk : EventHeader)
      → ev.header.payload_size < 2 ^ 32 - 44
      → event_of_bytes junk (raw ev ++ rest) (size_of ev) ≡ ok ev
  unfolding event_of_bytes
  event_of_bytes-raw junk h =
      rw
        (
          le→ltb_false (size_of ev) 44 (omega (arith, v.header_measured)),
          load_bytes-in_range (raw ev ++ rest) 0 44
              (omega (arith, length-append (raw ev) rest, length-raw ev)),
          header_back,
          check_header_ok ev.header v.marked v.versioned,
          behind_header,
          left_over h,
          ==_refl ev.header.payload_size,
          loaded rest,
        )
        refl
