-- ===== src/Dump/Program.antt =====
-- EventFormats/apps/eventDump.cxx: `main` from its arguments on. As for the other program,
-- `getopt_long` and the file are parameters.
use faser_common.Common.{ℕ, ◌≡◌, ◌≢◌, List, [], ◌∷◌, Bool, Bool-cases, inl, inr}
use faser_common.Common.{
  ltb, if◌then◌else◌, length, Option, none, some, Result, ok, throw, ◌>>=◌, Result-Cases, returned,
  thrown, faulted,
}
use faser_common.Filter.Args.{ArgException, usage}
use faser_common.Dump.{DumpOptions, no_options, read_option, DumpEnd, failed, stuck, dump_events}
use faser_common.Dump.Ends.{dump_events-ne-stuck}

unfoldable pub read_options : List (ℕ × List ℕ) → DumpOptions → Result ArgException DumpOptions
read_options [] o = ok o
read_options ((opt, optarg) ∷ opts) o = read_option opt optarg o >>= λ o'. read_options opts o'

-- The file that the first operand names.
unfoldable pub run_file :
    (List ℕ → Option (List ℕ))
    → ℕ
    → Bool
    → DumpOptions
    → List (List ℕ)
    → Result ArgException DumpEnd
run_file to_read junk stale o [] = throw usage
run_file to_read junk stale o (filename ∷ more) = elim (to_read filename) [
  | none ↦ ok failed
  | some input ↦ ok (dump_events junk stale o input)
]

unfoldable pub main :
    (List (List ℕ) → List (ℕ × List ℕ) × List (List ℕ))
    → (List ℕ → Option (List ℕ))
    → ℕ
    → Bool
    → List (List ℕ)
    → Result ArgException DumpEnd
unfolding run_file read_options
main getopt to_read junk stale argv =
    if ltb (length argv) 2
    then throw usage
    else (read_options (getopt argv).0 no_options >>= λ o.
        run_file to_read junk stale o (getopt argv).1)

ok_inj : (d d' : DumpEnd) → ◌≡◌ {A = Result ArgException DumpEnd} (ok d) (ok d') → d ≡ d'
ok_inj d d' h = cc

module _ (to_read : List ℕ → Option (List ℕ)) (junk : ℕ) (stale : Bool) where
  opened-ne-stuck :
      (o : DumpOptions) (more : List (List ℕ)) (filename : List ℕ) (found : Option (List ℕ))
      → to_read filename ≡ found
      → run_file to_read junk stale o (filename ∷ more) ≢ ok stuck
  unfolding run_file
  opened-ne-stuck o more filename none e = rw (run_file, e) (λ h. cc)
  opened-ne-stuck o more filename (some input) e =
      rw (run_file, e)
        (λ h.
          dump_events-ne-stuck junk stale o input (ok_inj (dump_events junk stale o input) stuck h))

  run_file-ne-stuck :
      (o : DumpOptions) (operands : List (List ℕ))
      → run_file to_read junk stale o operands ≢ ok stuck
  run_file-ne-stuck o [] = unfold run_file in λ h. cc
  run_file-ne-stuck o (filename ∷ more) =
      opened-ne-stuck o more filename (to_read filename) (λ i. to_read filename)

-- The dump comes to an end with all arguments and on every file: it prints its usage and exits, is
-- aborted by an exception of a decoder, returns 0 or 1, or does what is undefined; neither its own
-- loop nor a decoder ever runs out of rounds.
pub main-ne-stuck :
    (getopt : List (List ℕ) → List (ℕ × List ℕ) × List (List ℕ))
    (to_read : List ℕ → Option (List ℕ)) (junk : ℕ) (stale : Bool) (argv : List (List ℕ))
    → main getopt to_read junk stale argv ≢ ok stuck
unfolding main
main-ne-stuck getopt to_read junk stale argv = elim (Bool-cases (ltb (length argv) 2)) [
  | inl few ↦ rw (main, few) (λ h. cc)
  | inr enough ↦ elim (Result-Cases (read_options (getopt argv).0 no_options)) [
    | returned o r ↦ rw (main, enough, r) (run_file-ne-stuck to_read junk stale o (getopt argv).1)
    | thrown x r ↦ rw (main, enough, r) (λ h. cc)
    | faulted r ↦ rw (main, enough, r) (λ h. cc)
  ]
]
