-- ===== src/Bobr/Print/Report.antt =====
-- What the `operator<<` of BOBRDataFragment.hpp writes, line by line.
use faser_common.Common.{
  ℕ, ◌≡◌, refl, ap, ap₂, ◌∙◌, List, [], ◌∷◌, ◌++◌, Bool, true, false, if◌then◌else◌,
}
use faser_common.Stream.{
  Item, decimal, hexadecimal, number_text, padded, codes, plain, plain_stream,
}
use faser_common.Stream.Laws.{outputs, format_behind, puts-outputs}
use faser_common.Bobr.{BobrDataFragment, machinemode_txt}
use faser_common.Bobr.Print.Meaning.{
  mode_of, mode_table, machinemode_txt-mode_of, gev_text, momentum_text-gev_text, fault_lines,
  faults-fault_lines,
}
use faser_common.Bobr.Print.{
  mode_text, momentum_text, flag_items, value_items, faults, fault_items, report_items,
  print_fragment,
}

-- Items that write a text, from the format of a new stream on, and leave that format.
abbrev Writes : List Item → List ℕ → Type 0
Writes items text = (outputs plain items ≡ text) × (format_behind plain items ≡ plain)

-- A line of a flag that is up, before others.
abbrev flag_text : Bool → List ℕ → List ℕ → List ℕ
flag_text flag label rest = if flag then padded 40 b' ' label ++ (10 ∷ rest) else rest

flag_items-Writes :
    (flag : Bool) (label : List ℕ) (rest : List Item) (text : List ℕ)
    → Writes rest text
    → Writes (flag_items flag label rest) (flag_text flag label text)
unfolding outputs format_behind padded
flag_items-Writes false label rest text h = h
flag_items-Writes true label rest text h = (ap (λ t. padded 40 b' ' label ++ (10 ∷ t)) h.0, h.1)

-- A line of the report, before others.
abbrev row : List ℕ → List ℕ → List ℕ → List ℕ
row label value rest = padded 27 b' ' label ++ (padded 32 b' ' value ++ (10 ∷ rest))

abbrev dec_text : ℕ → List ℕ
dec_text n = number_text decimal n

-- The lines of the values, with the texts of the machine mode and of the momentum.
abbrev value_text : BobrDataFragment → List ℕ → List ℕ → List ℕ
value_text frag mode momentum =
    let e = frag.event in
    padded 27 b' ' (codes " gps_time: ")
    ++ (padded 25 b' ' (dec_text e.m_gpstime_seconds)
        ++ (codes "."
            ++ (padded 6 b'0' (dec_text e.m_gpstime_useconds)
                ++ (10
                    ∷ row (codes " LHC turn count: ") (dec_text e.m_turncount) (
                        row (codes " LHC fill number: ") (dec_text e.m_fillnumber) (
                          padded 27 b' ' (codes " LHC machine mode: ")
                          ++ (padded 27 b' ' mode
                              ++ (codes " ("
                                  ++ (padded 2 b' ' (dec_text e.m_machinemode)
                                      ++ (codes ")\n"
                                          ++ row (codes " Beam momentum [GeV]: ") momentum (
                                              row (codes " Beam 1 intensity [1e10p]: ")
                                                (dec_text e.m_beam1_intensity)
                                                (row (codes " Beam 2 intensity [1e10p]: ")
                                                  (dec_text e.m_beam2_intensity) []))))))))))))

value_items-as_coded :
    (frag : BobrDataFragment)
    → Writes (value_items frag) (
        value_text frag
          (mode_text (machinemode_txt frag))
          (momentum_text frag.event.m_beam_momentum))
unfolding outputs format_behind padded
value_items-as_coded frag = (refl, refl)

-- The lines of the values, by the numbers that they stand for.
abbrev values : BobrDataFragment → List ℕ
values frag =
    value_text frag (mode_of frag.event.m_machinemode mode_table)
      (gev_text frag.event.m_beam_momentum)

value_items-Writes : (frag : BobrDataFragment) → Writes (value_items frag) (values frag)
value_items-Writes frag =
    let read = value_items-as_coded frag in
    (
      read.0
          ∙ ap₂ (value_text frag) (machinemode_txt-mode_of frag)
              (momentum_text-gev_text frag.event.m_beam_momentum),
      read.1,
    )

-- The lines of the flags that are up, before others.
abbrev fault_text : List (Bool × List ℕ) → List ℕ → List ℕ
fault_text [] rest = rest
fault_text ((flag, label) ∷ more) rest = flag_text flag label (fault_text more rest)

fault_items-Writes :
    (flags : List (Bool × List ℕ)) (rest : List Item) (text : List ℕ)
    → Writes rest text
    → Writes (fault_items flags rest) (fault_text flags text)
fault_items-Writes [] rest text h = h
fault_items-Writes ((flag, label) ∷ more) rest text h =
    flag_items-Writes flag label (fault_items more rest) (fault_text more text)
      (fault_items-Writes more rest text h)

-- All lines: the status, the flags that are up, the values.
abbrev pub report : BobrDataFragment → List ℕ
report frag =
    padded 27 b' ' (codes "Status: ")
    ++ (padded 28 b' ' (codes "0x")
        ++ (padded 4 b'0' (number_text hexadecimal frag.event.m_status)
            ++ (10 ∷ fault_text (fault_lines frag.event.m_status) (values frag))))

report_items-Writes : (frag : BobrDataFragment) → Writes (report_items frag) (report frag)
unfolding outputs format_behind padded
report_items-Writes frag =
    let rest =
      fault_items-Writes (faults frag) (value_items frag) (values frag) (value_items-Writes frag) in
    let lines = ap (λ fs. fault_text fs (values frag)) (faults-fault_lines frag) in
    (
      ap
          (λ t.
            padded 27 b' ' (codes "Status: ")
            ++ (padded 28 b' ' (codes "0x")
                ++ (padded 4 b'0' (number_text hexadecimal frag.event.m_status) ++ (10 ∷ t))))
          (rest.0 ∙ lines),
      rest.1,
    )

-- Printing a fragment to a stream in the format of a new one leaves that format. It writes the
-- status, a line for each fault that its bits tell of (bits 0 and 12 by being up, bits 8 to 11 by being
-- down), and the seven lines of the values: the machine mode with its name in the machine's table, and
-- the momentum in GeV, 0.12 for each unit, with at most two decimals and no zeros behind them.
pub print_fragment-report_beam :
    (t : List ℕ) (frag : BobrDataFragment)
    → print_fragment (plain_stream t) frag ≡ plain_stream (t ++ report frag)
unfolding print_fragment
print_fragment-report_beam t frag =
    let all = report_items-Writes frag in
    puts-outputs (report_items frag) (plain_stream t)
    ∙ ap₂ (λ s fm. record { text = t ++ s; format = fm }) all.0 all.1
