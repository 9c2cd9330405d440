-- ===== src/TlbData/Print/Report.antt =====
-- What the `operator<<` of TLBDataFragment.hpp writes, line by line.
use faser_common.Common.{
  ℕ, ◌/◌, ◌^◌, ◌≡◌, inl, inr, refl, sym, ap, ap₂, ◌∙◌, List, [], ◌∷◌, ◌++◌, Bool, true, false, ◌||◌,
  ltb, ◌==◌, if◌then◌else◌, Bool-cases, Result, ok, throw, fault,
}
use faser_common.Stream.{
  Ostream, Item, decimal, hexadecimal, number_text, padded, codes, plain_stream, bitset_text, puts,
  run,
}
use faser_common.Stream.Laws.{outputs, format_behind, puts-outputs, puts-append}
use faser_common.Stream.Runs.{filled, Answers, run-Answers, before_call, Throws, run-Throws}
use faser_common.Exceptions.{throw_at, what}
use faser_common.Common.{bit_and}
use faser_common.Common.Words.{u8}
use faser_common.TlbData.{mask_tap_v1, mask_tap_v2, mask_tbp}
use faser_common.TlbData.{
  TlbDataFragment, TlbDataException, data_not_valid, valid, verify, if_valid, event_id, bc_id,
  orbits_lost_counter, has_checksum_error, has_frameid_error,
}
use faser_common.TlbData.Print.{
  print_fragment, report_steps, corrupted_items, version_items, bool_number,
}

-- The fragment with the answer of `valid` in it.
abbrev pub kept : TlbDataFragment → TlbDataFragment
kept f = record f { m_verified = true; m_valid = (valid f).0 }

abbrev answer : TlbDataFragment → ℕ → Result TlbDataException ℕ
answer f x = if (valid f).0 || f.m_debug then ok x else throw data_not_valid

-- `valid` by whether it was asked before.
asked : Bool → TlbDataFragment → Bool × TlbDataFragment
asked known f =
    if known then (f.m_valid, f) else (verify f, record f { m_verified = true; m_valid = verify f })

valid-asked : (f : TlbDataFragment) (known : Bool) → f.m_verified ≡ known → valid f ≡ asked known f
unfolding valid asked
valid-asked f known e = ap (λ b. asked b f) e

valid-kept : (f : TlbDataFragment) → (valid f).1 ≡ kept f
unfolding asked
valid-kept f = elim (Bool-cases f.m_verified) [
  | inl known ↦
      let same = valid-asked f true known in
      ap (λ t. t.1) same
      ∙ ap₂ (λ b v. record f { m_verified = b; m_valid = v }) known (sym (ap (λ t. t.0) same))
  | inr unknown ↦
      let same = valid-asked f false unknown in
      ap (λ t. t.1) same
      ∙ ap (λ v. record f { m_verified = true; m_valid = v }) (sym (ap (λ t. t.0) same))
]

if_valid-kept : (f : TlbDataFragment) (x : ℕ) → if_valid f x ≡ (answer f x, kept f)
unfolding if_valid
if_valid-kept f x = rw (valid-kept f) refl

-- A line of the report before others.
abbrev row : List ℕ → List ℕ → List ℕ → List ℕ
row label value rest = padded 22 b' ' label ++ (padded 32 b' ' value ++ (10 ∷ rest))

abbrev tap_value : TlbDataFragment → ℕ
tap_value f =
    if ltb f.m_version 0x2
    then u8 (bit_and f.event.m_tbptap mask_tap_v1 / 2 ^ 8)
    else u8 (bit_and f.event.m_tbptap mask_tap_v2 / 2 ^ 6)

abbrev tbp_value : TlbDataFragment → ℕ
tbp_value f = u8 (bit_and f.event.m_tbptap mask_tbp)

abbrev pub report : TlbDataFragment → List ℕ
report f = row (codes " event_id: ") (number_text decimal (event_id f)) (
    row (codes " orbit_id: ") (number_text decimal f.event.m_orbit_id) (
      row (codes " bc_id: ") (number_text decimal (bc_id f)) (
        row (codes " TAP: ") (bitset_text 6 (tap_value f)) (
          row (codes " TBP: ") (bitset_text 6 (tbp_value f)) (
            row (codes " input_bits: ") (bitset_text 8 f.event.m_input_bits) (
              row (codes " input_bits_next_clk: ") (bitset_text 8 f.event.m_input_bits_next_clk) (
                row (codes " ext. orbits lost: ") (number_text decimal (orbits_lost_counter f))
                  [])))))))

-- What the getters answer, in their order.
abbrev answers : TlbDataFragment → List ℕ
answers f =
    f.event.m_orbit_id
    ∷ tap_value f
    ∷ tbp_value f
    ∷ f.event.m_input_bits
    ∷ f.event.m_input_bits_next_clk
    ∷ []

run-valid :
    (f : TlbDataFragment) (s : Ostream)
    → ((valid f).0 || f.m_debug) ≡ true
    → run (report_steps f) s f ≡ (ok tt, puts s (filled (report_steps f) (answers f)), kept f)
unfolding Answers valid if_valid
run-valid f s h =
    let ask : (x : ℕ) → if_valid f x ≡ (ok x, kept f) = λ x. if_valid-kept f x ∙ rw h refl in
    let again : (x : ℕ) → if_valid (kept f) x ≡ (ok x, kept f) = λ x. rw h refl in
    run-Answers (report_steps f) s f (kept f) (answers f) (
      kept f,
      ask f.event.m_orbit_id,
      (kept f, again _, (kept f, again _, (kept f, again _, (kept f, again _, refl)))),
    )

run-invalid :
    (f : TlbDataFragment) (s : Ostream)
    → ((valid f).0 || f.m_debug) ≡ false
    → run (report_steps f) s f
      ≡ (throw (data_not_valid, 92), puts s (before_call (report_steps f)), kept f)
unfolding Throws
run-invalid f s h =
    let ask : (x : ℕ) → if_valid f x ≡ (throw data_not_valid, kept f) =
      λ x. if_valid-kept f x ∙ rw h refl in
    run-Throws (report_steps f) s f (kept f) data_not_valid 92 (ask f.event.m_orbit_id, refl)

abbrev line_end : List ℕ
line_end = 10 ∷ []

-- Behind the report; the last line warns of an unknown version.
abbrev pub version_text : Bool → TlbDataFragment → List ℕ
version_text unknown f =
    codes "\ndata format version: 0x"
    ++ (number_text hexadecimal f.m_version
        ++ (line_end
            ++ (if unknown
                then codes
                    "WARNING This is an invalid format version number! Either this data is corrupted or this is not TLB physics data."
                  ++ line_end
                else [])))

version_printed :
    (unknown : Bool) (f : TlbDataFragment) (t : List ℕ)
    → puts (plain_stream t) (version_items unknown f) ≡ plain_stream (t ++ version_text unknown f)
unfolding outputs format_behind padded
version_printed true f t = puts-outputs (version_items true f) (plain_stream t)
version_printed false f t = puts-outputs (version_items false f) (plain_stream t)

-- What is written if a getter throws, with the width that the label's line left.
abbrev pub corrupted_text : Bool → List ℕ → TlbDataFragment → List ℕ
corrupted_text checked file f = row (codes " event_id: ") (number_text decimal (event_id f)) (
    padded 22 b' ' (codes " orbit_id: ")
    ++ (padded 32 b' ' (what (throw_at file 92 (codes "Data not valid"))).0
        ++ (line_end
            ++ (codes "Corrupted data for TLB data event "
                ++ (number_text decimal (event_id f)
                    ++ (codes ", bcid "
                        ++ (number_text decimal (bc_id f)
                            ++ (line_end
                                ++ (codes "Fragment size is "
                                    ++ (number_text decimal f.m_size
                                        ++ (codes " bytes total"
                                            ++ (line_end
                                                ++ (if checked
                                                    then codes "checksum errors present "
                                                      ++ (number_text decimal
                                                            (bool_number (has_checksum_error f))
                                                          ++ (line_end
                                                            ++ (codes "frameid errors present "
                                                            ++ (number_text decimal
                                                            (bool_number (has_frameid_error f))
                                                            ++ line_end))))
                                                    else [])))))))))))))

-- The two statements of the `catch` as one.
abbrev failed_items : Bool → List ℕ → TlbDataFragment → List Item
failed_items checked file f =
    before_call (report_steps f) ++ corrupted_items checked file 92 (kept f)

corrupted_printed :
    (checked : Bool) (file : List ℕ) (f : TlbDataFragment) (t : List ℕ)
    → puts (plain_stream t) (failed_items checked file f)
      ≡ plain_stream (t ++ corrupted_text checked file f)
unfolding outputs format_behind padded before_call has_checksum_error has_frameid_error
corrupted_printed true file f t = puts-outputs (failed_items true file f) (plain_stream t)
corrupted_printed false file f t = puts-outputs (failed_items false file f) (plain_stream t)

-- How the operator ends, by how its `try` block does.
ended :
    List ℕ
    → TlbDataFragment
    → Result (TlbDataException × ℕ) (Unit {0}) × Ostream × TlbDataFragment
    → Result TlbDataException (Unit {0}) × Ostream × TlbDataFragment
ended file f r =
    let behind = version_items (f.m_version == 0xff) r.2 in
    elim r.0 [
      | ok u ↦ (ok tt, puts r.1 behind, r.2)
      | throw (e, line) ↦
          (ok tt, puts (puts r.1 (corrupted_items (ltb 0x1 f.m_version) file line r.2)) behind, r.2)
      | fault ↦ (fault, r.1, r.2)
    ]

print-ended :
    (file : List ℕ) (out : Ostream) (f : TlbDataFragment)
    → print_fragment file out f ≡ ended file f (run (report_steps f) out f)
unfolding print_fragment ended
print-ended file out f = refl

print_valid :
    (file t : List ℕ) (f : TlbDataFragment)
    → ((valid f).0 || f.m_debug) ≡ true
    → print_fragment file (plain_stream t) f
      ≡ (ok tt, plain_stream ((t ++ report f) ++ version_text (f.m_version == 0xff) f), kept f)
unfolding ended outputs format_behind padded filled
print_valid file t f h =
    print-ended file (plain_stream t) f
    ∙ ap (ended file f) (run-valid f (plain_stream t) h)
    ∙ ap (λ s. (ok tt, puts s (version_items (f.m_version == 0xff) (kept f)), kept f))
        (puts-outputs (filled (report_steps f) (answers f)) (plain_stream t))
    ∙ ap (λ s. (ok tt, s, kept f)) (version_printed (f.m_version == 0xff) f (t ++ report f))

print_invalid :
    (file t : List ℕ) (f : TlbDataFragment)
    → ((valid f).0 || f.m_debug) ≡ false
    → print_fragment file (plain_stream t) f ≡ (
      ok tt,
      plain_stream (
          (t ++ corrupted_text (ltb 0x1 f.m_version) file f)
          ++ version_text (f.m_version == 0xff) f),
      kept f,
    )
unfolding ended
print_invalid file t f h =
    print-ended file (plain_stream t) f
    ∙ ap (ended file f) (run-invalid f (plain_stream t) h)
    ∙ ap (λ s. (ok tt, puts s (version_items (f.m_version == 0xff) (kept f)), kept f))
        (sym (puts-append (before_call (report_steps f)) _ (plain_stream t))
          ∙ corrupted_printed (ltb 0x1 f.m_version) file f t)
    ∙ ap (λ s. (ok tt, s, kept f))
        (version_printed (f.m_version == 0xff) f (t ++ corrupted_text (ltb 0x1 f.m_version) file f))

-- Printing a fragment to a stream in the format of a new one lets no exception out, whatever the
-- fragment, and leaves that format. It writes the eight lines of the report if the fragment is valid
-- or in debug mode; otherwise the line of the event id, the label of the next with the text of the
-- exception in its field, and the lines on the corrupted data, with the two flags for a version above
-- 1. The version follows, and a warning if it is unknown. The fragment keeps the answer of `valid`.
pub print_fragment-report :
    (file t : List ℕ) (f : TlbDataFragment)
    → print_fragment file (plain_stream t) f ≡ (
      ok tt,
      plain_stream (
          (t
            ++ (if (valid f).0 || f.m_debug
                then report f
                else corrupted_text (ltb 0x1 f.m_version) file f))
          ++ version_text (f.m_version == 0xff) f),
      kept f,
    )
print_fragment-report file t f = elim (Bool-cases ((valid f).0 || f.m_debug)) [
  | inl shown ↦ rw shown (print_valid file t f shown)
  | inr refused ↦ rw refused (print_invalid file t f refused)
]
