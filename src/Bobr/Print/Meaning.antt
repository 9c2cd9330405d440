-- ===== src/Bobr/Print/Meaning.antt =====
-- What the printed fragment is to say, by the numbers of its members alone: the names of the machine's
-- modes, the faults that the bits of the status word tell of, and the momentum in GeV.
use faser_common.Common.{
  ℕ, ◌+◌, ◌*◌, ◌/◌, ◌%◌, ◌^◌, ◌<◌, ◌≡◌, refl, ap, ap₂, ◌∙◌, List, [], ◌∷◌, ◌++◌, Bool, not,
  Bool-cases, inl, inr, ◌==◌, if◌then◌else◌, Option, none, some, bit_and, arith,
}
use native.Mathlib.Nat.{one-le-pow}
use faser_common.Common.Bits.{bit_and_shifted}
use faser_common.Common.Bits.Digit.{bit}
use faser_common.Common.OrderedMap.{find}
use faser_common.Stream.{codes, number_text, decimal}
use faser_common.Bobr.{
  BobrDataFragment, ModeName, unknown, mode_names, machinemode_txt, clock_unlocked, ttc_ready,
  local_40mhz_present, local_turnclock_present, ttcb_available, ttc_errors,
}
use faser_common.Bobr.Print.{mode_text, momentum_text, fraction_text, faults}

-- The machine's modes.
abbrev pub mode_table : List (ℕ × List ℕ)
mode_table =
    (1, codes "NOMODE ")
    ∷ (2, codes "SETUP")
    ∷ (3, codes "INJ. PROB")
    ∷ (4, codes "INJ. SETUP")
    ∷ (5, codes "INJ. PHYSICS")
    ∷ (6, codes "PREPARE RAMP")
    ∷ (7, codes "RAMP")
    ∷ (8, codes "FLAT TOP")
    ∷ (9, codes "SQUEEZE")
    ∷ (10, codes "ADJUST")
    ∷ (11, codes "STABLE BEAM")
    ∷ (13, codes "BEAM DUMP")
    ∷ (14, codes "RAMPDOWN")
    ∷ (15, codes "RECOVERY")
    ∷ (19, codes "CYCLING")
    ∷ (21, codes "NO BEAM")
    ∷ []

abbrev pub mode_of : ℕ → List (ℕ × List ℕ) → List ℕ
mode_of n [] = codes "UNKNOWN"
mode_of n ((m, text) ∷ more) = if n == m then text else mode_of n more

-- The names' texts in the place of the names.
abbrev texts : List (ℕ × ModeName) → List (ℕ × List ℕ)
texts [] = []
texts ((m, name) ∷ more) = (m, mode_text name) ∷ texts more

abbrev named : Option ModeName → ModeName
named none = unknown
named (some name) = name

find-mode_of :
    (n : ℕ) (names : List (ℕ × ModeName))
    → mode_text (named (find n names)) ≡ mode_of n (texts names)
unfolding find
find-mode_of n [] = refl
find-mode_of n ((m, name) ∷ more) = elim (Bool-cases (n == m)) [
  | inl e ↦ rw e refl
  | inr e ↦ rw e (find-mode_of n more)
]

pub machinemode_txt-mode_of :
    (frag : BobrDataFragment)
    → mode_text (machinemode_txt frag) ≡ mode_of frag.event.m_machinemode mode_table
unfolding machinemode_txt
machinemode_txt-mode_of frag = find-mode_of frag.event.m_machinemode mode_names

-- The bits of the status word that tell of a fault, and its text.
abbrev pub fault_lines : ℕ → List (Bool × List ℕ)
fault_lines status =
    (bit 0 status == 1, codes "Clock card unlocked")
    ∷ (bit 8 status == 0, codes "TTC not ready")
    ∷ (bit 9 status == 0, codes "No LHC clock")
    ∷ (bit 10 status == 0, codes "No LHC orbit")
    ∷ (bit 11 status == 0, codes "No TTC-b (LHC info) signal")
    ∷ (bit 12 status == 1, codes "TTC errors")
    ∷ []

-- A test of a bit by a mask.
masked_up : (k w : ℕ) → not (bit_and w (2 ^ k) == 0) ≡ (bit k w == 1)
masked_up k w = ground (arith, bit_and_shifted k 1 w, one-le-pow k 2)

masked_down : (k w : ℕ) → not (not (bit_and w (2 ^ k) == 0)) ≡ (bit k w == 0)
masked_down k w = ground (arith, bit_and_shifted k 1 w, one-le-pow k 2)

pub faults-fault_lines : (frag : BobrDataFragment) → faults frag ≡ fault_lines frag.event.m_status
unfolding clock_unlocked ttc_ready local_40mhz_present local_turnclock_present ttcb_available
    ttc_errors
faults-fault_lines frag =
    let w : ℕ = frag.event.m_status in
    rw
      (
        masked_up 0 w,
        masked_down 8 w,
        masked_down 9 w,
        masked_down 10 w,
        masked_down 11 w,
        masked_up 12 w,
      )
      refl

-- Digits without the zeros at their end, and the point before them, if any are left.
abbrev trimmed : List ℕ → List ℕ
trimmed [] = []
trimmed (d ∷ ds) = elim (trimmed ds) [ [] ↦ if d == b'0' then [] else d ∷ [] | e ∷ es ↦ d ∷ e ∷ es ]

abbrev behind_point : List ℕ → List ℕ
behind_point [] = []
behind_point (d ∷ ds) = b'.' ∷ d ∷ ds

-- The two decimals of a number of hundredths.
abbrev decimals : ℕ → ℕ → List ℕ
decimals tenths hundredths = behind_point (trimmed ((b'0' + tenths) ∷ (b'0' + hundredths) ∷ []))

-- The decimal number of `n` times 0.12, by its hundredths.
abbrev pub gev_text : ℕ → List ℕ
gev_text n =
    let cents : ℕ = 12 * n in
    number_text decimal (cents / 100) ++ decimals (cents / 10 % 10) (cents % 10)

fraction_text-decimals : (c : ℕ) → c < 100 → fraction_text c ≡ decimals (c / 10) (c % 10)
fraction_text-decimals c h = ground arith

pub momentum_text-gev_text : (n : ℕ) → momentum_text n ≡ gev_text n
unfolding momentum_text
momentum_text-gev_text n =
    let small : 12 * n % 100 < 100 = omega arith in
    let tenths : 12 * n % 100 / 10 ≡ 12 * n / 10 % 10 = omega arith in
    let hundredths : 12 * n % 100 % 10 ≡ 12 * n % 10 = omega arith in
    ap (λ t. number_text decimal (12 * n / 100) ++ t)
      (fraction_text-decimals (12 * n % 100) small ∙ ap₂ decimals tenths hundredths)
