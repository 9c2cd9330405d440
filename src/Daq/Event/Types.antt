-- ===== src/Daq/Event/Types.antt =====
-- What the reader of a stream accepts as the header of an event.
use faser_common.Common.{
  ℕ, ◌+◌, ◌≤◌, ◌≡◌, refl, sym, ap, ◌∙◌, subst, List, [], drop, take, length, length-drop, drop-drop,
  Bool, true, false, ltb, ltb_false→le, Result, ok, throw_if, >>=-eq-ok, arith,
}
use faser_common.Common.Bytes.{IsBytes, field-lt}
use faser_common.Daq.Defs.{
  EFormatException, too_small_event, payload_too_large, event_size_mismatch,
}
use faser_common.Daq.Event.Defs.{
  EventHeader, EventFull, IsHeader, header_bytes, header_of_bytes, read_event, check_header,
  load_fragments,
}
use faser_common.Daq.Event.Codec.{header_bytes-header_of_bytes}
use faser_common.Daq.Fragment.{EventFragment}

-- The structure that 44 bytes are read as.
header_of_bytes-IsHeader :
    (buf : List ℕ) → IsBytes buf → 44 ≤ length buf → IsHeader (header_of_bytes buf)
unfolding header_of_bytes
header_of_bytes-IsHeader buf bytes long = record {
  marker_fits = field-lt 0 1 buf bytes (omega arith);
  event_tag_fits = field-lt 1 1 buf bytes (omega arith);
  trigger_bits_fits = field-lt 2 2 buf bytes (omega arith);
  version_number_fits = field-lt 4 2 buf bytes (omega arith);
  header_size_fits = field-lt 6 2 buf bytes (omega arith);
  payload_size_fits = field-lt 8 4 buf bytes (omega arith);
  fragment_count_fits = field-lt 12 1 buf bytes (omega arith);
  run_number_fits = field-lt 13 3 buf bytes (omega arith);
  event_id_fits = field-lt 16 8 buf bytes (omega arith);
  event_counter_fits = field-lt 24 8 buf bytes (omega arith);
  bc_id_fits = field-lt 32 2 buf bytes (omega arith);
  status_fits = field-lt 34 2 buf bytes (omega arith);
  timestamp_fits = field-lt 36 8 buf bytes (omega arith);
}

-- What a constructor's last step returned.
returned_header :
    (hd : EventHeader) (m : List (ℕ × EventFragment)) (left rest : List ℕ) (ev : EventFull)
    → ◌≡◌ {A = Result EFormatException (EventFull × List ℕ)}
        (ok (record { header = hd; fragments = m }, left))
        (ok (ev, rest))
    → ev.header ≡ hd
returned_header hd m left rest ev h = cc h

returned_rest :
    (hd : EventHeader) (m : List (ℕ × EventFragment)) (left rest : List ℕ) (ev : EventFull)
    → ◌≡◌ {A = Result EFormatException (EventFull × List ℕ)}
        (ok (record { header = hd; fragments = m }, left))
        (ok (ev, rest))
    → rest ≡ left
returned_rest hd m left rest ev h = cc h

throw_if-ok : (b : Bool) (e : EFormatException) (u : Unit {0}) → throw_if b e ≡ ok u → b ≡ false
throw_if-ok true e u h = cc h
throw_if-ok false e u h = refl

check_header_inv :
    (h : EventHeader) (u : Unit {0})
    → check_header h ≡ ok u
    → (h.marker ≡ 0xBB) × (h.version_number ≡ 1)
unfolding check_header
check_header_inv h u e = ground arith

-- What the reader makes of an input that it accepts, but for the fragments.
read_event-inv :
    (input rest : List ℕ) (ev : EventFull)
    → read_event input ≡ ok (ev, rest)
    → (44 ≤ length input)
      × (ev.header ≡ header_of_bytes input)
      × (ev.header.marker ≡ 0xBB)
      × (ev.header.version_number ≡ 1)
      × (ev.header.payload_size ≤ 1000000)
      × (44 + ev.header.payload_size ≤ length input)
      × (rest ≡ drop (44 + ev.header.payload_size) input)
unfolding read_event
read_event-inv input rest ev h =
    let hd = header_of_bytes input in
    let behind = drop 44 input in
    let (u1, long, h1) = >>=-eq-ok (throw_if (ltb (length input) 44) too_small_event) _ h in
    let (u2, known, h2) = >>=-eq-ok (check_header hd) _ h1 in
    let (u3, limited, h3) =
      >>=-eq-ok (throw_if (ltb 1000000 hd.payload_size) payload_too_large) _ h2 in
    let (u4, there, h4) =
      >>=-eq-ok (throw_if (ltb (length behind) hd.payload_size) event_size_mismatch) _ h3 in
    let (fragments, loaded, h5) =
      >>=-eq-ok (load_fragments hd.fragment_count (take hd.payload_size behind) hd.payload_size [])
        _ h4 in
    let same : ev.header ≡ hd =
      returned_header hd fragments (drop hd.payload_size behind) rest ev h5 in
    let long' = ltb_false→le (length input) 44 (throw_if-ok _ too_small_event u1 long) in
    let there' =
      ltb_false→le (length behind) hd.payload_size (throw_if-ok _ event_size_mismatch u4 there) in
    let limited' =
      ltb_false→le 1000000 hd.payload_size (throw_if-ok _ payload_too_large u3 limited) in
    let checked = check_header_inv hd u2 known in
    let sized : ev.header.payload_size ≡ hd.payload_size = ap (λ t. t.payload_size) same in
    (
      long',
      same,
      ap (λ t. t.marker) same ∙ checked.0,
      ap (λ t. t.version_number) same ∙ checked.1,
      omega (arith, sized, limited'),
      omega (arith, sized, there', length-drop 44 input, long'),
      returned_rest hd fragments (drop hd.payload_size behind) rest ev h5
          ∙ drop-drop 44 hd.payload_size input
          ∙ ap (λ (n : ℕ). drop (44 + n) input) (sym sized),
    )

-- An input of bytes that the reader accepts starts with the bytes of the header of the event that it
-- returns. Each member of this header has a value that its type holds, the marker is 0xBB, the version
-- 1, the payload is within the limit of 1000000 bytes and there as a whole, and the stream is left
-- just behind it.
pub read_event-IsHeader :
    (input rest : List ℕ) (ev : EventFull)
    → IsBytes input
    → read_event input ≡ ok (ev, rest)
    → IsHeader ev.header
      × (header_bytes ev.header ≡ take 44 input)
      × (ev.header.marker ≡ 0xBB)
      × (ev.header.version_number ≡ 1)
      × (ev.header.payload_size ≤ 1000000)
      × (44 + ev.header.payload_size ≤ length input)
      × (rest ≡ drop (44 + ev.header.payload_size) input)
read_event-IsHeader input rest ev bytes e =
    let (long, same, marked, versioned, limited, there, left) = read_event-inv input rest ev e in
    (
      subst IsHeader (sym same) (header_of_bytes-IsHeader input bytes long),
      ap header_bytes same ∙ header_bytes-header_of_bytes input bytes long,
      marked,
      versioned,
      limited,
      there,
      left,
    )
