-- ===== src/Digitizer/Print/Rows.antt =====
-- The rows that the `operator<<` of DigitizerDataFragment.hpp writes.
use faser_common.Common.{
  ℕ, zero, suc, ◌+◌, ◌≤◌, ◌<◌, ◌≡◌, inl, inr, refl, sym, ap, ◌∙◌, List, [], ◌∷◌, ◌++◌, Bool, true,
  false, if◌then◌else◌, Bool-cases, length, Result, ok, append_assoc, append-nil, arith, ◌>>=◌,
}
use faser_common.Stream.{
  Ostream, setw, dec, number, str, decimal, number_text, padded, codes, plain_stream, puts,
}
use faser_common.Stream.Laws.{outputs, format_behind, puts-outputs}
use faser_common.Digitizer.{DigitizerDataFragment, channel_has_data}
use faser_common.Digitizer.Print.{OutOfRange, at, counts_of, print_cells, print_rows}

-- A sample; `at` never meets the default.
abbrev pub sample : List ℕ → ℕ → ℕ
sample [] i = 0
sample (x ∷ xs) zero = x
sample (x ∷ xs) (suc i) = sample xs i

at-sample : (xs : List ℕ) (i : ℕ) → i < length xs → at xs i ≡ ok (sample xs i)
unfolding at
at-sample [] i h = absurd (omega arith)
at-sample (x ∷ xs) zero h = refl
at-sample (x ∷ xs) (suc i) h = at-sample xs i (omega arith)

-- A cell: the sample of an enabled channel, and a dash for the others.
abbrev cell_text : DigitizerDataFragment → ℕ → ℕ → List ℕ
cell_text f i_chan i_samp =
    if channel_has_data f i_chan
    then padded 9 b' ' (number_text decimal (sample (counts_of f i_chan) i_samp))
    else padded 9 b' ' (codes " - ")

unfoldable pub cells_text : ℕ → ℕ → ℕ → DigitizerDataFragment → List ℕ
cells_text zero i_chan i_samp f = 10 ∷ []
cells_text (suc left) i_chan i_samp f =
    cell_text f i_chan i_samp ++ cells_text left (i_chan + 1) i_samp f

abbrev row_text : ℕ → DigitizerDataFragment → List ℕ
row_text i_samp f = padded 10 b' ' (number_text decimal i_samp) ++ (b'|' ∷ cells_text 16 0 i_samp f)

unfoldable pub rows_text : ℕ → ℕ → DigitizerDataFragment → List ℕ
rows_text zero i_samp f = []
rows_text (suc left) i_samp f = row_text i_samp f ++ rows_text left (i_samp + 1) f

-- The enabled ones among the first 16 channels have the samples that are announced.
abbrev pub HasAll : DigitizerDataFragment → Type 0
HasAll f =
    (c : ℕ) → c < 16 → channel_has_data f c ≡ true → length (counts_of f c) ≡ f.event.n_samples

cell_printed :
    (n : ℕ) (t : List ℕ)
    → puts (plain_stream t) (setw 9 ∷ dec ∷ number n ∷ [])
      ≡ plain_stream (t ++ padded 9 b' ' (number_text decimal n))
unfolding outputs format_behind
cell_printed n t =
    puts-outputs (setw 9 ∷ dec ∷ number n ∷ []) (plain_stream t)
    ∙ ap (λ u. plain_stream (t ++ u)) (append-nil (padded 9 b' ' (number_text decimal n)))

dash_printed :
    (t : List ℕ)
    → puts (plain_stream t) (setw 9 ∷ str " - " ∷ [])
      ≡ plain_stream (t ++ padded 9 b' ' (codes " - "))
unfolding outputs format_behind
dash_printed t =
    puts-outputs (setw 9 ∷ str " - " ∷ []) (plain_stream t)
    ∙ ap (λ u. plain_stream (t ++ u)) (append-nil (padded 9 b' ' (codes " - ")))

-- The next cell and those behind it.
next_cells : ℕ → ℕ → ℕ → DigitizerDataFragment → Ostream → Bool → Result OutOfRange Ostream
next_cells left i_chan i_samp f out on = elim on [
  | true ↦ at (counts_of f i_chan) i_samp >>= λ n.
      print_cells left (i_chan + 1) i_samp f (puts out (setw 9 ∷ dec ∷ number n ∷ []))
  | false ↦ print_cells left (i_chan + 1) i_samp f (puts out (setw 9 ∷ str " - " ∷ []))
]

print_cells-next :
    (left i_chan i_samp : ℕ) (f : DigitizerDataFragment) (out : Ostream) (on : Bool)
    → channel_has_data f i_chan ≡ on
    → print_cells (suc left) i_chan i_samp f out ≡ next_cells left i_chan i_samp f out on
unfolding print_cells next_cells
print_cells-next left i_chan i_samp f out on e = ap (next_cells left i_chan i_samp f out) e

row_end :
    (i_chan i_samp : ℕ) (f : DigitizerDataFragment) (t : List ℕ)
    → print_cells zero i_chan i_samp f (plain_stream t) ≡ ok (plain_stream (t ++ (10 ∷ [])))
unfolding print_cells puts
row_end i_chan i_samp f t = refl

print_cells-text :
    (left i_chan i_samp : ℕ) (f : DigitizerDataFragment) (t : List ℕ)
    → HasAll f
    → left + i_chan ≤ 16
    → i_samp < f.event.n_samples
    → print_cells left i_chan i_samp f (plain_stream t)
      ≡ ok (plain_stream (t ++ cells_text left i_chan i_samp f))
unfolding cells_text next_cells
print_cells-text zero i_chan i_samp f t all room inside = row_end i_chan i_samp f t
print_cells-text (suc left) i_chan i_samp f t all room inside =
    let behind = λ (u : List ℕ).
      print_cells-text left (i_chan + 1) i_samp f (t ++ u) all (omega arith) inside
      ∙ ap (λ r. ok (plain_stream r)) (append_assoc t u (cells_text left (i_chan + 1) i_samp f)) in
    elim (Bool-cases (channel_has_data f i_chan)) [
      | inl on ↦
          let read =
            at-sample (counts_of f i_chan) i_samp (omega (arith, all i_chan (omega arith) on)) in
          print_cells-next left i_chan i_samp f (plain_stream t) true on
          ∙ rw (read, cell_printed (sample (counts_of f i_chan) i_samp) t, on) (behind _)
      | inr off ↦
          print_cells-next left i_chan i_samp f (plain_stream t) false off
          ∙ rw (dash_printed t, off) (behind _)
    ]

label_printed :
    (i_samp : ℕ) (t : List ℕ)
    → puts (plain_stream t) (setw 10 ∷ dec ∷ number i_samp ∷ str "|" ∷ [])
      ≡ plain_stream (t ++ (padded 10 b' ' (number_text decimal i_samp) ++ (b'|' ∷ [])))
unfolding outputs format_behind padded
label_printed i_samp t =
    puts-outputs (setw 10 ∷ dec ∷ number i_samp ∷ str "|" ∷ []) (plain_stream t)

pub print_rows-text :
    (left i_samp : ℕ) (f : DigitizerDataFragment) (t : List ℕ)
    → HasAll f
    → left + i_samp ≤ f.event.n_samples
    → print_rows left i_samp f (plain_stream t) ≡ ok (plain_stream (t ++ rows_text left i_samp f))
unfolding print_rows rows_text
print_rows-text zero i_samp f t all room = ap (λ u. ok (plain_stream u)) (sym (append-nil t))
print_rows-text (suc left) i_samp f t all room =
    let label = padded 10 b' ' (number_text decimal i_samp) in
    rw (label_printed i_samp t) (
      rw
        (print_cells-text 16 0 i_samp f (t ++ (label ++ (b'|' ∷ []))) all (omega arith)
          (omega arith))
        (print_rows-text left (i_samp + 1) f _ all (omega arith)
          ∙ ap (λ u. ok (plain_stream u)) (simp append_assoc)))
