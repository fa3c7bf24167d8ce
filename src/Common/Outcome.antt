-- ===== src/Common/Outcome.antt =====
-- How a C++ call ends: with a value, with an exception, or with undefined behaviour (a read or a
-- write outside a buffer, a call outside its documented domain), which no handler catches.
use Prim.Native.Nat.{ℕ}
use mathlib.Core.Path.{◌≡◌, refl}
use mathlib.Core.Logic.{◌⊎◌, inl, inr}
use mathlib.Core.Bool.{Bool, true, false}
use mathlib.Core.Option.{Option, none, some}

-- The exception classes that the sources throw; what `nlohmann::json` and `oxenmq` throw is
-- `library_error`.
pub data Error : Type 0 where
  runtime_error invalid_argument range_error library_error : Error

pub data Result {ℓ} (A : Type ℓ) : Type ℓ where
  ok : A → Result A
  err : Error → Result A
  undefined : Result A

-- What follows a call: it is reached by a value only.
infixl 5 ◌>>=◌ ◌>>◌
abbrev pub ◌>>=◌ {ℓ₁ ℓ₂} :
    {Value : Type ℓ₁} {Next : Type ℓ₂} → Result Value → (Value → Result Next) → Result Next
undefined >>= next = undefined
err e >>= next = err e
ok value >>= next = next value

abbrev pub ◌>>◌ {ℓ₁} : {Next : Type ℓ₁} → Result (Unit {0}) → Result Next → Result Next
first >> then_do = first >>= λ _. then_do

-- `if (!test) throw e;`
abbrev pub guard : Bool → Error → Result (Unit {0})
guard true e = ok tt
guard false e = err e

-- What the language or a library leaves undefined unless the test holds.
abbrev pub requires : Bool → Result (Unit {0})
requires true = ok tt
requires false = undefined

abbrev pub or_throw {ℓ} : {A : Type ℓ} → Option A → Error → Result A
or_throw none e = err e
or_throw (some a) e = ok a

-- `try { return m; } catch (...) {}` and then `handler`.
abbrev pub catch_all {ℓ} : {A : Type ℓ} → Result A → Result A → Result A
catch_all (ok a) handler = ok a
catch_all (err e) handler = handler
catch_all undefined handler = undefined

-- A computation that draws random values: the state counts the draws made so far.
abbrev pub Random {ℓ} : Type ℓ → Type ℓ
Random A = ℕ → Result (A × ℕ)

pub Result-cases {ℓ} :
    {A : Type ℓ} (m : Result A)
    → ((a : A) × (m ≡ ok a)) ⊎ ((e : Error) × (m ≡ err e)) ⊎ (m ≡ undefined)
Result-cases (ok a) = inl (a, refl)
Result-cases (err e) = inr (inl (e, refl))
Result-cases undefined = inr (inr refl)
