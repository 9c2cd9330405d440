-- ===== src/Stream/Runs.antt =====
-- Statements with calls that may throw.
use faser_common.Common.{ℕ, ◌≡◌, ap, ◌∙◌, List, [], ◌∷◌, ok, throw}
use faser_common.Stream.{Ostream, Item, Step, item, call, run, put, puts}

module _ {F E : Type 0} where
  -- The items of a statement, with the answers of its calls.
  unfoldable pub filled : List (Step F E) → List ℕ → List Item
  filled [] ns = []
  filled (item i ∷ steps) ns = i ∷ filled steps ns
  filled (call line get show ∷ steps) [] = []
  filled (call line get show ∷ steps) (n ∷ ns) = show n ∷ filled steps ns

  -- The calls answer so, and leave the object so.
  unfoldable pub Answers : F → List (Step F E) → List ℕ → F → Type 0
  Answers f [] ns f' = f ≡ f'
  Answers f (item i ∷ steps) ns f' = Answers f steps ns f'
  Answers f (call line get show ∷ steps) [] f' = ⊥
  Answers f (call line get show ∷ steps) (n ∷ ns) f' =
      (g : F) × (get f ≡ (ok n, g)) × Answers g steps ns f'

  pub run-Answers :
      (steps : List (Step F E)) (s : Ostream) (f f' : F) (ns : List ℕ)
      → Answers f steps ns f'
      → run steps s f ≡ (ok tt, puts s (filled steps ns), f')
  unfolding run filled Answers puts
  run-Answers [] s f f' ns h = ap (λ t. (ok tt, s, t)) h
  run-Answers (item i ∷ steps) s f f' ns h = run-Answers steps (put s i) f f' ns h
  run-Answers (call line get show ∷ steps) s f f' [] h = absurd h
  run-Answers (call line get show ∷ steps) s f f' (n ∷ ns) h =
      let (g, e, more) = h in
      let answer : (get f).0 ≡ ok n = ap (λ t. t.0) e in
      let left : (get f).1 ≡ g = ap (λ t. t.1) e in
      rw (run, answer)
        (ap (run steps (put s (show n))) left ∙ run-Answers steps (put s (show n)) g f' ns more)

  -- The items before the first call, and what that throws.
  unfoldable pub before_call : List (Step F E) → List Item
  before_call [] = []
  before_call (item i ∷ steps) = i ∷ before_call steps
  before_call (call line get show ∷ steps) = []

  unfoldable pub Throws : F → List (Step F E) → E → ℕ → F → Type 0
  Throws f [] e l f' = ⊥
  Throws f (item i ∷ steps) e l f' = Throws f steps e l f'
  Throws f (call line get show ∷ steps) e l f' = (get f ≡ (throw e, f')) × (line ≡ l)

  pub run-Throws :
      (steps : List (Step F E)) (s : Ostream) (f f' : F) (e : E) (l : ℕ)
      → Throws f steps e l f'
      → run steps s f ≡ (throw (e, l), puts s (before_call steps), f')
  unfolding run before_call Throws puts
  run-Throws [] s f f' e l h = absurd h
  run-Throws (item i ∷ steps) s f f' e l h = run-Throws steps (put s i) f f' e l h
  run-Throws (call line get show ∷ steps) s f f' e l h =
      let answer : (get f).0 ≡ throw e = ap (λ t. t.0) h.0 in
      let left : (get f).1 ≡ f' = ap (λ t. t.1) h.0 in
      rw (run, answer)
        (ap (λ (t : ℕ). (throw (e, t), s, (get f).1)) h.1 ∙ ap (λ t. (throw (e, l), s, t)) left)
