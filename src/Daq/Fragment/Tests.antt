-- ===== src/Daq/Fragment/Tests.antt =====
-- A concrete fragment, and the theorems at it.
use faser_common.Common.{
  ℕ, ◌+◌, ◌^◌, ◌≤◌, ◌<◌, ◌≡◌, ◌⊎◌, ◌↔◌, inr, refl, arith, List, [], ◌∷◌, ◌++◌, take, length, true,
  false, ok, throw, fault,
}
use faser_common.Common.Bytes.{field, le_bytes}
use faser_common.Daq.Defs.{
  too_little_header, no_fragment_header, too_little_data, fragment_size_mismatch,
}
use faser_common.Daq.Fragment.{
  EventFragment, IsFragment, fresh_header, decode_fragment, raw, size_of, header_bytes,
  header_of_bytes, sizeof_header,
}
use faser_common.Daq.Fragment.Steps.{Passes}
use faser_common.Daq.Fragment.RoundTrip.{decode_fragment-raw, raw-decode_fragment}
use faser_common.Daq.Fragment.Safety.{decode_fragment-fault_iff}

abbrev small : EventFragment
small = record { header = fresh_header 1000 0 0x020000 77 1660 3; fragment = 1 ∷ 2 ∷ 3 ∷ [] }

small-IsFragment : IsFragment small
small-IsFragment = omega arith

abbrev small_bytes : List ℕ
small_bytes =
    le_bytes 1 0xAA
    ++ (le_bytes 1 0
        ++ (le_bytes 2 0
            ++ (le_bytes 2 1
                ++ (le_bytes 2 36
                    ++ (le_bytes 4 3
                        ++ (le_bytes 4 0x020000
                            ++ (le_bytes 8 77
                                ++ (le_bytes 2 1660
                                    ++ (le_bytes 2 0
                                        ++ (le_bytes 8 1000 ++ (1 ∷ 2 ∷ 3 ∷ [])))))))))))

-- A header that claims 2 ^ 32 - 36 bytes of payload, so that the sum of the sizes is 0.
abbrev wrapping : List ℕ
wrapping =
    le_bytes 1 0xAA
    ++ (le_bytes 1 0
        ++ (le_bytes 2 0
            ++ (le_bytes 2 1
                ++ (le_bytes 2 36
                    ++ (le_bytes 4 0xFFFFFFDC
                        ++ (le_bytes 4 0
                            ++ (le_bytes 8 0
                                ++ (le_bytes 2 0 ++ (le_bytes 2 0 ++ le_bytes 8 0)))))))))

decode_outcomes :
    (decode_fragment small_bytes 39 false ≡ ok small)
    × (decode_fragment (small_bytes ++ (9 ∷ [])) 40 false ≡ throw fragment_size_mismatch)
    × (decode_fragment (small_bytes ++ (9 ∷ [])) 40 true ≡ ok small)
    × (decode_fragment small_bytes 38 true ≡ throw too_little_data)
    × (decode_fragment small_bytes 20 true ≡ throw too_little_header)
    × (decode_fragment (1 ∷ 2 ∷ 3 ∷ 4 ∷ 5 ∷ 6 ∷ 7 ∷ 8 ∷ []) 8 true ≡ throw no_fragment_header)
    × (decode_fragment wrapping 36 true ≡ fault)
unfolding decode_fragment header_of_bytes
decode_outcomes = (refl, refl, refl, refl, refl, refl, refl)

decode_fragment-raw_example : decode_fragment (raw small ++ (9 ∷ 9 ∷ [])) 40 true ≡ ok small
unfolding raw header_bytes
decode_fragment-raw_example =
    decode_fragment-raw small (9 ∷ 9 ∷ []) small-IsFragment 40 true (omega arith) (inr refl)

raw-decode_fragment_example :
    (raw small ≡ take (size_of small) small_bytes)
    × IsFragment small
    × (size_of small ≤ 39)
    × (false ≡ false → size_of small ≡ 39)
raw-decode_fragment_example =
    raw-decode_fragment small_bytes 39 false small (omega arith) decode_outcomes.0 refl
      (omega arith)

decode_fragment-fault_iff_example :
    (decode_fragment wrapping 36 true ≡ fault)
    ↔ ((2 ^ 32 ≤ field 6 2 wrapping + field 8 4 wrapping) ⊎ (length wrapping < sizeof_header))
decode_fragment-fault_iff_example =
    decode_fragment-fault_iff wrapping 36 true wrapping-Passes (omega arith) (omega arith)
  where
    wrapping-Passes : Passes wrapping 36 true
    wrapping-Passes = record {
      not_tiny = omega arith;
      marked = refl;
      versioned = refl;
      header_in = omega arith;
      sizes_readable = omega arith;
      fragment_in = omega arith;
      exact = inr refl;
    }
