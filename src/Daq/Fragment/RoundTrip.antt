-- ===== src/Daq/Fragment/RoundTrip.antt =====
-- Encoding and decoding of a fragment.
use faser_common.Common.{
  ℕ, ◌+◌, ◌^◌, ◌≤◌, ◌<◌, ◌≡◌, ◌⊎◌, refl, sym, ap, ◌∙◌, List, ◌++◌, append_assoc, arith,
}
use faser_common.Common.{
  length, length-append, take, take-append_length, take-add, Bool, true, false,
}
use faser_common.Common.{ok, subst}
use faser_common.Common.Bytes.{
  IsBytes, field, slice, slice-IsBytes, length-slice, load_bytes-in_range,
}
use faser_common.Daq.Fragment.{
  EventFragment, EventFragmentHeader, header_bytes, header_of_bytes, raw, size_of, make_fragment,
  fresh_header,
}
use faser_common.Daq.Fragment.{
  decode_fragment, copy_fragment, IsFragment, fragment_marker, sizeof_header,
}
use faser_common.Daq.Fragment.{fragment_version_latest}
use faser_common.Daq.Fragment.Codec.{length-header_bytes, header_of_bytes-header_bytes}
use faser_common.Daq.Fragment.Codec.{header_bytes-header_of_bytes, header_of_bytes-IsHeader}
use faser_common.Daq.Fragment.Steps.{Passes, decode_fragment-Passes, decode_fragment_inv}
use faser_common.Daq.Fragment.Steps.{copy_fragment_ok, copy_fragment_inv}

pub length-raw : (f : EventFragment) → length (raw f) ≡ 36 + length f.fragment
unfolding raw
length-raw f =
    omega (arith, length-append (header_bytes f.header) f.fragment, length-header_bytes f.header)

-- The size that a fragment reports is the number of its bytes.
pub size_of-raw : (f : EventFragment) → IsFragment f → size_of f ≡ length (raw f)
size_of-raw f v = omega (arith, length-raw f, v.header_measured, v.payload_measured, v.total_fits)

module _ (f : EventFragment) (rest : List ℕ) (v : IsFragment f) where
  read_back : header_of_bytes (raw f ++ rest) ≡ f.header
  unfolding raw
  read_back =
      ap header_of_bytes (append_assoc (header_bytes f.header) f.fragment rest)
      ∙ header_of_bytes-header_bytes f.header (f.fragment ++ rest) v.header_fits

  field_of : (g : EventFragmentHeader → ℕ) → g (header_of_bytes (raw f ++ rest)) ≡ g f.header
  field_of g = ap g read_back

  payload_back : slice 36 (length f.fragment) (raw f ++ rest) ≡ f.fragment
  unfolding raw header_bytes
  payload_back = take-append_length f.fragment rest

  length-raw_rest : length (raw f ++ rest) ≡ 36 + length f.fragment + length rest
  length-raw_rest = omega (arith, length-append (raw f) rest, length-raw f)

  marker_back : field 0 1 (raw f ++ rest) ≡ fragment_marker
  unfolding header_of_bytes
  marker_back = field_of (λ h. h.marker) ∙ v.marked

  version_back : field 4 2 (raw f ++ rest) ≡ fragment_version_latest
  unfolding header_of_bytes
  version_back = field_of (λ h. h.version_number) ∙ v.versioned

  header_size_back : field 6 2 (raw f ++ rest) ≡ 36
  unfolding header_of_bytes
  header_size_back = field_of (λ h. h.header_size) ∙ v.header_measured

  payload_size_back : field 8 4 (raw f ++ rest) ≡ length f.fragment
  unfolding header_of_bytes
  payload_size_back = field_of (λ h. h.payload_size) ∙ v.payload_measured

  module _ (size : ℕ) (allow : Bool) (fits : length (raw f) ≤ size)
      (exact : (size ≡ length (raw f)) ⊎ (allow ≡ true)) where
    passes : Passes (raw f ++ rest) size allow
    passes = record {
      not_tiny = omega (arith, length-raw f);
      marked = marker_back;
      versioned = version_back;
      header_in = omega (arith, length-raw f, header_size_back);
      sizes_readable = omega (arith, length-raw_rest);
      fragment_in = omega (arith, length-raw f, header_size_back, payload_size_back, v.total_fits);
      exact = ground (arith, length-raw f, header_size_back, payload_size_back, v.total_fits);
    }

    -- Decoding the bytes of a well-formed fragment gives the fragment back, whatever follows them,
    -- if the size given is theirs or a larger one with excess data allowed. Well formed is a
    -- fragment with the marker and the present version, whose members fit their types and whose
    -- payload consists of bytes, if its header gives 36 as its own length and the length of the
    -- payload, which add up to a size that does not wrap.
    pub decode_fragment-raw : decode_fragment (raw f ++ rest) size allow ≡ ok f
    decode_fragment-raw =
        decode_fragment-Passes (raw f ++ rest) size allow passes
        ∙ ap (λ n. copy_fragment (raw f ++ rest) (n, field 8 4 (raw f ++ rest))) header_size_back
        ∙ ap (λ n. copy_fragment (raw f ++ rest) (36, n)) payload_size_back
        ∙ copy_fragment_ok (raw f ++ rest) 36 (length f.fragment) (omega (arith, length-raw_rest))
            (omega (arith, length-raw_rest))
        ∙ (λ i. ok (record { header = read_back i; fragment = payload_back i }))

-- The fragment that a payload is wrapped into is well formed and has the payload, the given
-- identifiers and the time; its status and trigger bits are clear.
pub make_fragment-IsFragment :
    (now tag source event bc : ℕ) (payload : List ℕ) (size : ℕ)
    → now < 256 ^ 8
    → tag < 256 ^ 1
    → source < 256 ^ 4
    → event < 256 ^ 8
    → bc < 256 ^ 2
    → IsBytes payload
    → size ≤ length payload
    → sizeof_header + size < 2 ^ 32
    → (f : EventFragment) × (make_fragment now tag source event bc payload size ≡ ok f)
      × IsFragment f
      × (f.fragment ≡ take size payload)
      × (f.header.source_id ≡ source)
      × (f.header.event_id ≡ event)
      × (f.header.bc_id ≡ bc)
      × (f.header.fragment_tag ≡ tag)
      × (f.header.timestamp ≡ now)
      × (f.header.status ≡ 0)
      × (f.header.trigger_bits ≡ 0)
unfolding make_fragment
make_fragment-IsFragment now tag source event bc payload size hn ht hs he hb bytes h fits = (
  record { header = fresh_header now tag source event bc size; fragment = slice 0 size payload },
  rw (load_bytes-in_range payload 0 size (omega arith)),
  record {
    header_fits = omega arith;
    marked = refl;
    versioned = refl;
    header_measured = refl;
    payload_measured = omega (arith, length-slice 0 size payload (omega arith));
    payload_bytes = slice-IsBytes 0 size payload bytes;
    total_fits = omega (arith, length-slice 0 size payload (omega arith));
  },
  refl,
  refl,
  refl,
  refl,
  refl,
  refl,
  refl,
  refl,
)

-- What a decoded fragment holds, by the buffer.
decoded_parts :
    (buf : List ℕ) (size : ℕ) (allow : Bool) (f : EventFragment)
    → decode_fragment buf size allow ≡ ok f
    → Passes buf size allow
      × (field 6 2 buf + field 8 4 buf ≤ length buf)
      × (sizeof_header ≤ length buf)
      × (record {
        header = header_of_bytes buf;
        fragment = slice (field 6 2 buf) (field 8 4 buf) buf;
      }
          ≡ f)
decoded_parts buf size allow f e =
    let (p, c) = decode_fragment_inv buf size allow f e in
    let (k, m, q) = copy_fragment_inv buf (field 6 2 buf) (field 8 4 buf) f c in (p, k, m, q)

module _ (buf : List ℕ) (size : ℕ) (allow : Bool) where
  -- What a decoded fragment says of the buffer.
  abbrev Faithful : EventFragment → Type 0
  Faithful f =
      (raw f ≡ take (size_of f) buf)
      × IsFragment f
      × (size_of f ≤ size)
      × (allow ≡ false → size_of f ≡ size)

  abbrev read_fragment : EventFragment
  read_fragment = record {
    header = header_of_bytes buf;
    fragment = slice (field 6 2 buf) (field 8 4 buf) buf;
  }

  module _ (bytes : IsBytes buf) (p : Passes buf size allow)
      (k : field 6 2 buf + field 8 4 buf ≤ length buf) (m : sizeof_header ≤ length buf)
      (hs : field 6 2 buf ≡ sizeof_header) (fits : sizeof_header + field 8 4 buf < 2 ^ 32) where
    same_bytes : raw read_fragment ≡ take (36 + field 8 4 buf) buf
    unfolding raw
    same_bytes =
        ap (λ t. t ++ slice (field 6 2 buf) (field 8 4 buf) buf)
          (header_bytes-header_of_bytes buf bytes m)
        ∙ ap (λ n. take 36 buf ++ slice n (field 8 4 buf) buf) hs
        ∙ take-add 36 (field 8 4 buf) buf

    total_of : size_of read_fragment ≡ 36 + field 8 4 buf
    unfolding header_of_bytes
    total_of = omega arith

    payload_of : length (read_fragment).fragment ≡ field 8 4 buf
    payload_of = length-slice (field 6 2 buf) (field 8 4 buf) buf k

    read_fragment-IsFragment : IsFragment read_fragment
    unfolding header_of_bytes
    read_fragment-IsFragment = record {
      header_fits = header_of_bytes-IsHeader buf bytes m;
      marked = p.marked;
      versioned = p.versioned;
      header_measured = hs;
      payload_measured = sym payload_of;
      payload_bytes = slice-IsBytes (field 6 2 buf) (field 8 4 buf) buf bytes;
      total_fits = omega (arith, payload_of);
    }

    read_fragment-Faithful : Faithful read_fragment
    read_fragment-Faithful = (
      same_bytes ∙ ap (λ n. take n buf) (sym total_of),
      read_fragment-IsFragment,
      omega (arith, total_of, p.fragment_in),
      λ strict. ground (arith, total_of, p.exact),
    )

-- Encoding what was decoded gives back the bytes that it was decoded from, and the fragment is
-- well formed and not larger than the size given, and of just that size if excess data is not
-- allowed: for headers that are 36 bytes long and sizes whose sum does not wrap.
pub raw-decode_fragment :
    (buf : List ℕ) (size : ℕ) (allow : Bool) (f : EventFragment)
    → IsBytes buf
    → decode_fragment buf size allow ≡ ok f
    → f.header.header_size ≡ sizeof_header
    → sizeof_header + f.header.payload_size < 2 ^ 32
    → (raw f ≡ take (size_of f) buf)
      × IsFragment f
      × (size_of f ≤ size)
      × (allow ≡ false → size_of f ≡ size)
unfolding header_of_bytes
raw-decode_fragment buf size allow f bytes e =
    let (p, k, m, q) = decoded_parts buf size allow f e in
    subst
      (λ g.
        g.header.header_size ≡ sizeof_header
        → sizeof_header + g.header.payload_size < 2 ^ 32
        → Faithful buf size allow g)
      q (λ hs fits. read_fragment-Faithful buf size allow bytes p k m hs fits)
