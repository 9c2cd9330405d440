-- ===== src/Bobr/Print.antt =====
-- EventFormats/EventFormats/BOBRDataFragment.hpp: the other getters and the `operator<<`, whose `try`
-- block calls nothing that throws.
pub mod Meaning
pub mod Report
mod Tests
use faser_common.Common.{
  ℕ, ◌*◌, ◌/◌, ◌%◌, ◌+◌, List, [], ◌∷◌, ◌++◌, Bool, true, false, not, ◌==◌, if◌then◌else◌,
}
use faser_common.Stream.{
  Ostream, Item, codes, number, chars, str, setw, setfill, hex, dec, endl, puts, number_text,
  decimal,
}
use faser_common.Bobr.{
  BobrDataFragment, ModeName, no_mode, setup, inj_prob, inj_setup, inj_physics, prepare_ramp, ramp,
  flat_top, squeeze, adjust, stable_beam, beam_dump, rampdown, recovery, cycling, no_beam, unknown,
  status, gpstime_seconds, gpstime_useconds, turncount, fillnumber, machinemode, beam_momentum,
  beam1_intensity, beam2_intensity, machinemode_txt, clock_unlocked, ttc_ready, local_40mhz_present,
  local_turnclock_present, ttcb_available, ttc_errors,
}

-- The texts of `modeNames`, and that of any other mode.
abbrev pub mode_text : ModeName → List ℕ
mode_text no_mode = codes "NOMODE "
mode_text setup = codes "SETUP"
mode_text inj_prob = codes "INJ. PROB"
mode_text inj_setup = codes "INJ. SETUP"
mode_text inj_physics = codes "INJ. PHYSICS"
mode_text prepare_ramp = codes "PREPARE RAMP"
mode_text ramp = codes "RAMP"
mode_text flat_top = codes "FLAT TOP"
mode_text squeeze = codes "SQUEEZE"
mode_text adjust = codes "ADJUST"
mode_text stable_beam = codes "STABLE BEAM"
mode_text beam_dump = codes "BEAM DUMP"
mode_text rampdown = codes "RAMPDOWN"
mode_text recovery = codes "RECOVERY"
mode_text cycling = codes "CYCLING"
mode_text no_beam = codes "NO BEAM"
mode_text unknown = codes "UNKNOWN"

-- The digits of hundredths, without zeros at the end.
abbrev fraction_text : ℕ → List ℕ
fraction_text cents =
    if cents == 0
    then []
    else if cents % 10 == 0
    then b'.' ∷ (b'0' + cents / 10) ∷ []
    else b'.' ∷ (b'0' + cents / 10) ∷ (b'0' + cents % 10) ∷ []

-- `0.12*event.beam_momentum()` as it is written: the product of a 16-bit number has two decimals and
-- at most the six digits that are shown.
unfoldable pub momentum_text : ℕ → List ℕ
momentum_text n = number_text decimal (12 * n / 100) ++ fraction_text (12 * n % 100)

-- A line of a flag that is up, before others.
abbrev pub flag_items : Bool → List ℕ → List Item → List Item
flag_items false label rest = rest
flag_items true label rest = setw 40 ∷ chars label ∷ endl ∷ rest

abbrev pub value_items : BobrDataFragment → List Item
value_items frag =
    setw 27
    ∷ str " gps_time: "
    ∷ setfill b' '
    ∷ setw 25
    ∷ number (gpstime_seconds frag)
    ∷ str "."
    ∷ setfill b'0'
    ∷ setw 6
    ∷ number (gpstime_useconds frag)
    ∷ setfill b' '
    ∷ endl
    ∷ setw 27
    ∷ str " LHC turn count: "
    ∷ setfill b' '
    ∷ setw 32
    ∷ number (turncount frag)
    ∷ setfill b' '
    ∷ endl
    ∷ setw 27
    ∷ str " LHC fill number: "
    ∷ setfill b' '
    ∷ setw 32
    ∷ number (fillnumber frag)
    ∷ setfill b' '
    ∷ endl
    ∷ setw 27
    ∷ str " LHC machine mode: "
    ∷ setfill b' '
    ∷ setw 27
    ∷ chars (mode_text (machinemode_txt frag))
    ∷ setfill b' '
    ∷ str " ("
    ∷ setw 2
    ∷ number (machinemode frag)
    ∷ str ")"
    ∷ endl
    ∷ setw 27
    ∷ str " Beam momentum [GeV]: "
    ∷ setfill b' '
    ∷ setw 32
    ∷ chars (momentum_text (beam_momentum frag))
    ∷ setfill b' '
    ∷ endl
    ∷ setw 27
    ∷ str " Beam 1 intensity [1e10p]: "
    ∷ setfill b' '
    ∷ setw 32
    ∷ number (beam1_intensity frag)
    ∷ setfill b' '
    ∷ endl
    ∷ setw 27
    ∷ str " Beam 2 intensity [1e10p]: "
    ∷ setfill b' '
    ∷ setw 32
    ∷ number (beam2_intensity frag)
    ∷ setfill b' '
    ∷ endl
    ∷ []

abbrev pub status_items : BobrDataFragment → List Item → List Item
status_items frag rest =
    setw 27
    ∷ str "Status: "
    ∷ setfill b' '
    ∷ setw 28
    ∷ hex
    ∷ str "0x"
    ∷ setfill b'0'
    ∷ setw 4
    ∷ number (status frag)
    ∷ dec
    ∷ setfill b' '
    ∷ endl
    ∷ rest

-- The `if`s on the flags of the status word, with the texts of their lines.
abbrev pub faults : BobrDataFragment → List (Bool × List ℕ)
faults frag =
    (clock_unlocked frag, codes "Clock card unlocked")
    ∷ (not (ttc_ready frag), codes "TTC not ready")
    ∷ (not (local_40mhz_present frag), codes "No LHC clock")
    ∷ (not (local_turnclock_present frag), codes "No LHC orbit")
    ∷ (not (ttcb_available frag), codes "No TTC-b (LHC info) signal")
    ∷ (ttc_errors frag, codes "TTC errors")
    ∷ []

abbrev pub fault_items : List (Bool × List ℕ) → List Item → List Item
fault_items [] rest = rest
fault_items ((flag, label) ∷ more) rest = flag_items flag label (fault_items more rest)

abbrev pub report_items : BobrDataFragment → List Item
report_items frag = status_items frag (fault_items (faults frag) (value_items frag))

unfoldable pub print_fragment : Ostream → BobrDataFragment → Ostream
print_fragment out frag = puts out (report_items frag)
