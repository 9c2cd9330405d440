-- ===== src/Common/Exec.antt =====
-- The outcome of C++ code: a value, an exception of the component's own class (with the reason
-- that its message gives), or undefined behaviour such as a read outside the buffer.
use mathlib.Core.Path.{◌≡◌, refl}
use mathlib.Core.Bool.{Bool, true, false}
use mathlib.Core.Logic.{◌≢◌, ◌⊎◌, inl, inr}
use mathlib.Core.Option.{Option, none, some}

pub data Result {ℓ κ} (E : Type ℓ) (A : Type κ) : Type (ℓ ⊔ κ) where
  ok : A → Result E A
  throw : E → Result E A
  fault : Result E A

infixl 5 ◌>>=◌ ◌>>◌
abbrev pub ◌>>=◌ {ℓ κ μ} :
    {E : Type ℓ} {A : Type κ} {B : Type μ} → Result E A → (A → Result E B) → Result E B
ok a >>= f = f a
throw e >>= f = throw e
fault >>= f = fault

abbrev pub ◌>>◌ {ℓ μ} : {E : Type ℓ} {B : Type μ} → Result E (Unit {0}) → Result E B → Result E B
m >> k = m >>= λ _. k

-- Inversion of a bind that returned, for proofs where the first part stays shut.
pub >>=-eq-ok {ℓ κ μ} :
    {E : Type ℓ} {A : Type κ} {B : Type μ} (m : Result E A) (next : A → Result E B) {r : B}
    → (m >>= next) ≡ ok r
    → (v : A) × (m ≡ ok v) × (next v ≡ ok r)
>>=-eq-ok fault next h = cc
>>=-eq-ok (throw e) next h = cc
>>=-eq-ok (ok v) next h = (v, refl, h)

-- A bind of two parts that do not fault does not fault.
pub >>=-ne-fault {ℓ κ μ} :
    {E : Type ℓ} {A : Type κ} {B : Type μ} (m : Result E A) (f : A → Result E B)
    → m ≢ fault
    → ((a : A) → m ≡ ok a → f a ≢ fault)
    → (m >>= f) ≢ fault
>>=-ne-fault (ok a) f hm hf = hf a refl
>>=-ne-fault (throw e) f hm hf = λ p. cc
>>=-ne-fault fault f hm hf = λ p. hm refl

-- `if (…) THROW(…)`
abbrev pub throw_if {ℓ} : {E : Type ℓ} → Bool → E → Result E (Unit {0})
throw_if true e = throw e
throw_if false e = ok tt

-- To split on an outcome and keep the equation.
pub data Cases {ℓ κ} {E : Type ℓ} {A : Type κ} (r : Result E A) : Type (ℓ ⊔ κ) where
  returned : (a : A) → r ≡ ok a → Cases r
  thrown : (e : E) → r ≡ throw e → Cases r
  faulted : r ≡ fault → Cases r

pub Result-Cases {ℓ κ} : {E : Type ℓ} {A : Type κ} (r : Result E A) → Cases r
Result-Cases (ok a) = returned a refl
Result-Cases (throw e) = thrown e refl
Result-Cases fault = faulted refl

-- The same for an option.
pub Option-cases {ℓ} : {A : Type ℓ} (o : Option A) → (o ≡ none) ⊎ ((a : A) × (o ≡ some a))
Option-cases none = inl refl
Option-cases (some a) = inr (a, refl)
