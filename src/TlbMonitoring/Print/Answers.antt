-- ===== src/TlbMonitoring/Print/Answers.antt =====
-- What the getters answer while a fragment of TLBMonitoringFragment.hpp is printed.
use faser_common.Common.{
  ℕ, zero, suc, ◌+◌, ◌<◌, ◌≤◌, ◌≡◌, inl, inr, refl, sym, ap, ap₂, ◌∙◌, List, [], ◌∷◌, Bool, true,
  false, ◌||◌, if◌then◌else◌, Bool-cases, Result, ok, throw, bit_and, lt→leb_false, arith,
}
use faser_common.Stream.{Ostream, puts, run, Step}
use faser_common.Stream.Runs.{filled, Answers, run-Answers, before_call, Throws, run-Throws}
use faser_common.TlbMonitoring.{
  TlbMonitoringFragment, TlbMonException, data_not_valid, element, mask_data,
}
use faser_common.TlbMonitoring.Access.{
  valid, verify, if_valid, orbit_id, Line, tbp, tap, tav, line_words, trig_line, Counter, counter,
  counter_word, deadtime_veto_counter, busy_veto_counter, rate_limiter_veto_counter,
  bcr_veto_counter, digitizer_busy_counter, tap_ored, tav_ored,
}
use faser_common.TlbMonitoring.Print.{
  line_steps, later_steps, behind_steps, counter_steps, report_steps,
}

-- The fragment with the answer of `valid` in it.
abbrev pub kept : TlbMonitoringFragment → TlbMonitoringFragment
kept f = record f { m_verified = true; m_valid = (valid f).0 }

abbrev pub answer : TlbMonitoringFragment → ℕ → Result TlbMonException ℕ
answer f x = if (valid f).0 || f.m_debug then ok x else throw data_not_valid

-- `valid` by whether it was asked before.
asked : Bool → TlbMonitoringFragment → Bool × TlbMonitoringFragment
asked known f =
    if known then (f.m_valid, f) else (verify f, record f { m_valid = verify f; m_verified = true })

valid-asked :
    (f : TlbMonitoringFragment) (known : Bool) → f.m_verified ≡ known → valid f ≡ asked known f
unfolding valid asked
valid-asked f known e = ap (λ b. asked b f) e

valid-kept : (f : TlbMonitoringFragment) → (valid f).1 ≡ kept f
unfolding asked
valid-kept f = elim (Bool-cases f.m_verified) [
  | inl known ↦
      let same = valid-asked f true known in
      ap (λ t. t.1) same
      ∙ ap₂ (λ b v. record f { m_verified = b; m_valid = v }) known (sym (ap (λ t. t.0) same))
  | inr unknown ↦
      let same = valid-asked f false unknown in
      ap (λ t. t.1) same
      ∙ ap (λ v. record f { m_verified = true; m_valid = v }) (sym (ap (λ t. t.0) same))
]

if_valid-kept : (f : TlbMonitoringFragment) (x : ℕ) → if_valid f x ≡ (answer f x, kept f)
unfolding if_valid
if_valid-kept f x = rw (valid-kept f) refl

-- The counters of the trigger lines, and of the fragment.
abbrev pub line_value : Line → ℕ → TlbMonitoringFragment → ℕ
line_value l i f = bit_and (element (line_words l f.event) i) mask_data

abbrev pub count : Counter → TlbMonitoringFragment → ℕ
count c f = bit_and (counter_word c f.event) mask_data

unfoldable pub line_values : ℕ → ℕ → TlbMonitoringFragment → List ℕ → List ℕ
line_values zero i f rest = rest
line_values (suc left) i f rest =
    line_value tbp i f ∷ line_value tap i f ∷ line_value tav i f ∷ line_values left (i + 1) f rest

abbrev pub later_values : Bool → Bool → TlbMonitoringFragment → List ℕ
later_values false ored f = []
later_values true false f = count digitizer_busy_counter f ∷ []
later_values true true f = count digitizer_busy_counter f ∷ count tap_ored f ∷ count tav_ored f ∷ []

-- What the getters answer, in their order.
abbrev pub counter_answers : Bool → Bool → TlbMonitoringFragment → List ℕ
counter_answers later ored f =
    count deadtime_veto_counter f
    ∷ count busy_veto_counter f
    ∷ count rate_limiter_veto_counter f
    ∷ count bcr_veto_counter f
    ∷ later_values later ored f

abbrev pub answers : Bool → Bool → TlbMonitoringFragment → List ℕ
answers later ored f = f.event.m_orbit_id ∷ line_values 6 0 f (counter_answers later ored f)

module _ (f : TlbMonitoringFragment) (h : ((valid f).0 || f.m_debug) ≡ true) where
  again : (x : ℕ) → if_valid (kept f) x ≡ (ok x, kept f)
  unfolding if_valid valid
  again x = rw h refl

  trig_line-kept :
      (l : Line) (i : ℕ) → i < 6 → trig_line l (kept f) i ≡ (ok (line_value l i f), kept f)
  unfolding trig_line
  trig_line-kept l i small = rw (lt→leb_false 6 i small) (again (line_value l i f))

  counter-kept : (c : Counter) → counter c (kept f) ≡ (ok (count c f), kept f)
  unfolding counter
  counter-kept c = again (count c f)

  lines-Answers :
      (left i : ℕ) (rest : List (Step TlbMonitoringFragment TlbMonException)) (ns : List ℕ)
      → left + i ≤ 6
      → Answers (kept f) rest ns (kept f)
      → Answers (kept f) (line_steps left i rest) (line_values left i f ns) (kept f)
  unfolding Answers line_steps line_values
  lines-Answers zero i rest ns room more = more
  lines-Answers (suc left) i rest ns room more =
      let ask : (l : Line) → trig_line l (kept f) i ≡ (ok (line_value l i f), kept f) =
        λ l. trig_line-kept l i (omega arith) in
      (
        kept f,
        ask tbp,
        (kept f, ask tap, (kept f, ask tav, lines-Answers left (i + 1) rest ns (omega arith) more)),
      )

  counters-Answers :
      (later ored : Bool)
      → Answers (kept f) (counter_steps later ored f) (counter_answers later ored f) (kept f)
  unfolding Answers
  counters-Answers later ored =
      let ask = counter-kept in
      (
        kept f,
        ask deadtime_veto_counter,
        (
          kept f,
          ask busy_veto_counter,
          (kept f, ask rate_limiter_veto_counter, (kept f, ask bcr_veto_counter, more later ored)),
        ),
      )
    where
      more :
          (later ored : Bool)
          → Answers
              (kept f)
              (later_steps later ored (behind_steps f))
              (later_values later ored f)
              (kept f)
      more false ored = refl
      more true false = (kept f, counter-kept digitizer_busy_counter, refl)
      more true true = (
        kept f,
        counter-kept digitizer_busy_counter,
        (kept f, counter-kept tap_ored, (kept f, counter-kept tav_ored, refl)),
      )

  report-Answers :
      (later ored : Bool) → Answers f (report_steps later ored f) (answers later ored f) (kept f)
  unfolding Answers report_steps orbit_id
  report-Answers later ored = (
    kept f,
    if_valid-kept f f.event.m_orbit_id ∙ rw h refl,
    lines-Answers 6 0 (counter_steps later ored f) (counter_answers later ored f) (omega arith)
        (counters-Answers later ored),
  )

  pub run-valid :
      (later ored : Bool) (s : Ostream)
      → run (report_steps later ored f) s f
        ≡ (ok tt, puts s (filled (report_steps later ored f) (answers later ored f)), kept f)
  run-valid later ored s =
      run-Answers (report_steps later ored f) s f (kept f) (answers later ored f)
        (report-Answers later ored)

pub run-invalid :
    (f : TlbMonitoringFragment) (later ored : Bool) (s : Ostream)
    → ((valid f).0 || f.m_debug) ≡ false
    → run (report_steps later ored f) s f
      ≡ (throw (data_not_valid, 119), puts s (before_call (report_steps later ored f)), kept f)
unfolding Throws report_steps orbit_id
run-invalid f later ored s h =
    run-Throws (report_steps later ored f) s f (kept f) data_not_valid 119
      (if_valid-kept f f.event.m_orbit_id ∙ rw h refl, refl)
