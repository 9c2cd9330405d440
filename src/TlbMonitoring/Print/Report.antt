-- ===== src/TlbMonitoring/Print/Report.antt =====
-- What the `operator<<` of TLBMonitoringFragment.hpp writes, line by line.
use faser_common.Common.{
  ℕ, zero, suc, ◌+◌, ◌≡◌, inl, inr, refl, sym, ap, ◌∙◌, List, [], ◌∷◌, ◌++◌, Bool, true, false, not,
  ◌||◌, ltb, ◌==◌, if◌then◌else◌, Bool-cases, Result, ok, throw, fault,
}
use faser_common.Stream.{
  Ostream, Item, decimal, hexadecimal, number_text, padded, codes, plain_stream, puts, run,
}
use faser_common.Stream.Laws.{outputs, format_behind, puts-outputs, puts-append}
use faser_common.Stream.Runs.{filled, before_call}
use faser_common.Exceptions.{throw_at, what}
use faser_common.TlbMonitoring.{TlbMonitoringFragment, TlbMonException, data_not_valid, frame_check}
use faser_common.TlbMonitoring.Access.{
  valid, checksum, event_id, bc_id, orbits_lost_counter, Line, tbp, tap, tav, deadtime_veto_counter,
  busy_veto_counter, rate_limiter_veto_counter, bcr_veto_counter, digitizer_busy_counter, tap_ored,
  tav_ored, has_checksum_error, has_frameid_error,
}
use faser_common.TlbData.Print.{bool_number}
use faser_common.TlbMonitoring.Print.{print_fragment, report_steps, corrupted_items, version_items}
use faser_common.TlbMonitoring.Print.Answers.{
  kept, line_value, count, line_values, answers, run-valid, run-invalid,
}

abbrev dec_text : ℕ → List ℕ
dec_text n = number_text decimal n

-- A trigger line's counter in its field, before others.
abbrev field_text : List ℕ → Line → ℕ → TlbMonitoringFragment → List ℕ → List ℕ
field_text label l i f rest =
    label ++ (dec_text i ++ (codes ": " ++ (padded 24 b' ' (dec_text (line_value l i f)) ++ rest)))

unfoldable lines_text : ℕ → ℕ → TlbMonitoringFragment → List ℕ → List ℕ
lines_text zero i f rest = rest
lines_text (suc left) i f rest = field_text (codes "\ttbp") tbp i f (
    field_text (codes "\ttap") tap i f
      (field_text (codes "\ttav") tav i f (10 ∷ lines_text left (i + 1) f rest)))

-- The end of the report; the counters of version 2 before it.
abbrev lost_text : TlbMonitoringFragment → List ℕ
lost_text f = codes "\n ext. orbits lost: " ++ (dec_text (orbits_lost_counter f) ++ (10 ∷ []))

abbrev later_text : Bool → Bool → TlbMonitoringFragment → List ℕ
later_text false ored f = lost_text f
later_text true false f =
    codes ", digi busy veto count: "
    ++ (dec_text (count digitizer_busy_counter f) ++ (10 ∷ lost_text f))
later_text true true f =
    codes ", digi busy veto count: "
    ++ (dec_text (count digitizer_busy_counter f)
        ++ (codes "\n TAP ORed: "
            ++ (dec_text (count tap_ored f)
                ++ (codes ", TAV ORed: " ++ (dec_text (count tav_ored f) ++ lost_text f)))))

unfoldable pub report : Bool → Bool → TlbMonitoringFragment → List ℕ
unfolding lines_text
report later ored f =
    codes " event_id: "
    ++ (dec_text (event_id f)
        ++ (codes ", orbit_id: "
            ++ (dec_text f.event.m_orbit_id
                ++ (codes ", bc_id:    "
                    ++ (dec_text (bc_id f)
                        ++ (10
                            ∷ lines_text 6 0 f (
                                codes " deadtime veto count: "
                                ++ (dec_text (count deadtime_veto_counter f)
                                    ++ (codes ", busy veto count: "
                                        ++ (dec_text (count busy_veto_counter f)
                                            ++ (codes ", rate_limiter veto count: "
                                                ++ (dec_text (count rate_limiter_veto_counter f)
                                                    ++ (codes ", bcr veto count: "
                                                        ++ (dec_text (count bcr_veto_counter f)
                                                            ++ later_text later ored f))))))))))))))

-- What is written if a getter throws: the orbit id is missing in the first line.
abbrev pub corrupted_text : Bool → List ℕ → TlbMonitoringFragment → List ℕ
corrupted_text later file f =
    codes " event_id: "
    ++ (dec_text (event_id f)
        ++ (codes ", orbit_id: "
            ++ ((what (throw_at file 119 (codes "Data not valid"))).0
                ++ (codes "\nCorrupted data for TLB mon event "
                    ++ (dec_text (event_id f)
                        ++ (codes ", bcid "
                            ++ (dec_text (bc_id f)
                                ++ (codes ". Fragment size is "
                                    ++ (dec_text f.m_size
                                        ++ (codes " bytes total\n"
                                            ++ (if later
                                                then codes "checksum errors present "
                                                  ++ (dec_text (bool_number (has_checksum_error f))
                                                      ++ (codes ", frameid errors present "
                                                          ++ (dec_text
                                                            (bool_number (has_frameid_error f))
                                                            ++ (10 ∷ []))))
                                                else [])))))))))))

abbrev pub version_text : Bool → TlbMonitoringFragment → List ℕ
version_text unknown f =
    codes "\ndata format version: 0x"
    ++ (number_text hexadecimal f.m_version
        ++ (10
            ∷ (if unknown
                then codes
                    "WARNING This is an invalid format version number! Either this data is corrupted or this is not TLB monitoring data.\n"
                else [])))

version_printed :
    (unknown : Bool) (f : TlbMonitoringFragment) (t : List ℕ)
    → puts (plain_stream t) (version_items unknown f) ≡ plain_stream (t ++ version_text unknown f)
unfolding outputs format_behind padded
version_printed true f t = puts-outputs (version_items true f) (plain_stream t)
version_printed false f t = puts-outputs (version_items false f) (plain_stream t)

report_items : Bool → Bool → TlbMonitoringFragment → List Item
report_items later ored f = filled (report_steps later ored f) (answers later ored f)

report_printed :
    (later ored : Bool) (f : TlbMonitoringFragment) (t : List ℕ)
    → puts (plain_stream t) (report_items later ored f) ≡ plain_stream (t ++ report later ored f)
unfolding report_items outputs format_behind padded filled report_steps line_values report
report_printed false ored f t = puts-outputs (report_items false ored f) (plain_stream t)
report_printed true false f t = puts-outputs (report_items true false f) (plain_stream t)
report_printed true true f t = puts-outputs (report_items true true f) (plain_stream t)

-- The two statements of the `catch` as one.
failed_items : Bool → Bool → List ℕ → TlbMonitoringFragment → List Item
failed_items later ored file f =
    before_call (report_steps later ored f)
    ++ corrupted_items later file 119 data_not_valid (kept f)

failed_printed :
    (later ored : Bool) (file : List ℕ) (f : TlbMonitoringFragment) (t : List ℕ)
    → puts (plain_stream t) (failed_items later ored file f)
      ≡ plain_stream (t ++ corrupted_text later file f)
unfolding failed_items outputs format_behind padded before_call report_steps has_checksum_error
    has_frameid_error checksum frame_check
failed_printed true ored file f t = puts-outputs (failed_items true ored file f) (plain_stream t)
failed_printed false ored file f t = puts-outputs (failed_items false ored file f) (plain_stream t)

-- How the operator ends, by how its `try` block does.
ended :
    List ℕ
    → TlbMonitoringFragment
    → Result (TlbMonException × ℕ) (Unit {0}) × Ostream × TlbMonitoringFragment
    → Result TlbMonException (Unit {0}) × Ostream × TlbMonitoringFragment
ended file f r =
    let behind = version_items (f.m_version == 0xff) r.2 in
    elim r.0 [
      | ok u ↦ (ok tt, puts r.1 behind, r.2)
      | throw (e, line) ↦
          (ok tt, puts (puts r.1 (corrupted_items (ltb 1 f.m_version) file line e r.2)) behind, r.2)
      | fault ↦ (fault, r.1, r.2)
    ]

abbrev ored_of : TlbMonitoringFragment → Bool
ored_of f = not (f.m_size == 112)

print-ended :
    (file : List ℕ) (out : Ostream) (f : TlbMonitoringFragment)
    → print_fragment file out f
      ≡ ended file f (run (report_steps (ltb 1 f.m_version) (ored_of f) f) out f)
unfolding print_fragment ended
print-ended file out f = refl

module _ (file t : List ℕ) (f : TlbMonitoringFragment) where
  print_valid :
      ((valid f).0 || f.m_debug) ≡ true
      → print_fragment file (plain_stream t) f ≡ (
        ok tt,
        plain_stream (
            (t ++ report (ltb 1 f.m_version) (ored_of f) f)
            ++ version_text (f.m_version == 0xff) f),
        kept f,
      )
  unfolding ended report_items
  print_valid h =
      let later : Bool = ltb 1 f.m_version in
      print-ended file (plain_stream t) f
      ∙ ap (ended file f) (run-valid f h later (ored_of f) (plain_stream t))
      ∙ ap (λ s. (ok tt, puts s (version_items (f.m_version == 0xff) (kept f)), kept f))
          (report_printed later (ored_of f) f t)
      ∙ ap (λ s. (ok tt, s, kept f))
          (version_printed (f.m_version == 0xff) f (t ++ report later (ored_of f) f))

  print_invalid :
      ((valid f).0 || f.m_debug) ≡ false
      → print_fragment file (plain_stream t) f ≡ (
        ok tt,
        plain_stream (
            (t ++ corrupted_text (ltb 1 f.m_version) file f)
            ++ version_text (f.m_version == 0xff) f),
        kept f,
      )
  unfolding ended failed_items
  print_invalid h =
      let later : Bool = ltb 1 f.m_version in
      let steps = report_steps later (ored_of f) f in
      print-ended file (plain_stream t) f
      ∙ ap (ended file f) (run-invalid f later (ored_of f) (plain_stream t) h)
      ∙ ap (λ s. (ok tt, puts s (version_items (f.m_version == 0xff) (kept f)), kept f))
          (sym (
              puts-append (before_call steps)
                (corrupted_items later file 119 data_not_valid (kept f)) (plain_stream t))
            ∙ failed_printed later (ored_of f) file f t)
      ∙ ap (λ s. (ok tt, s, kept f))
          (version_printed (f.m_version == 0xff) f (t ++ corrupted_text later file f))

  -- Printing a fragment to a stream in the format of a new one lets no exception out, whatever the
  -- fragment, and leaves that format. It writes the report if the fragment is valid or in debug mode,
  -- with the digitizer's counter for a version above 1, and with the two counters of the combined
  -- lines unless the size is the old one; otherwise the start of the report's first line, the text of
  -- the exception, and the lines on the corrupted data. The version follows, and a warning if it is
  -- unknown. The fragment keeps the answer of `valid`.
  pub print_fragment-report_counters : print_fragment file (plain_stream t) f ≡ (
    ok tt,
    plain_stream (
        (t
          ++ (if (valid f).0 || f.m_debug
              then report (ltb 1 f.m_version) (ored_of f) f
              else corrupted_text (ltb 1 f.m_version) file f))
        ++ version_text (f.m_version == 0xff) f),
    kept f,
  )
  print_fragment-report_counters = elim (Bool-cases ((valid f).0 || f.m_debug)) [
    | inl shown ↦ rw shown (print_valid shown)
    | inr refused ↦ rw refused (print_invalid refused)
  ]
