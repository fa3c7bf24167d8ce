-- ===== src/Common/Defined.antt =====
-- Calls that have no undefined behaviour, put together step by step.
use mathlib.Core.Path.{◌≡◌, refl}
use mathlib.Core.Logic.{◌≢◌, ◌⊎◌, inl, inr}
use mathlib.Core.Bool.{Bool, true, false}
use mathlib.Core.Option.{Option, none, some}
use libonionrequests.Common.Outcome.{
  Result, ok, err, undefined, Error, ◌>>=◌, ◌>>◌, guard, requires, or_throw,
}
use native.Mathlib.Omega.{arith}

module _ {ℓ κ} {A : Type ℓ} {B : Type κ} where
  pub >>=-Defined :
      (m : Result A) (f : A → Result B)
      → m ≢ undefined
      → ((a : A) → m ≡ ok a → f a ≢ undefined)
      → (m >>= f) ≢ undefined
  >>=-Defined (ok a) f h k = k a refl
  >>=-Defined (err e) f h k = λ p. cc
  >>=-Defined undefined f h k = absurd (h refl)

  pub or_throw-Defined :
      (o : Option A) (e : Error) (f : A → Result B)
      → ((a : A) → o ≡ some a → f a ≢ undefined)
      → (or_throw o e >>= f) ≢ undefined
  or_throw-Defined none e f k = λ p. cc
  or_throw-Defined (some a) e f k = k a refl

module _ {ℓ} {B : Type ℓ} where
  pub guard-Defined :
      (b : Bool) (e : Error) (k : Result B)
      → (b ≡ true → k ≢ undefined)
      → (guard b e >> k) ≢ undefined
  guard-Defined true e k h = h refl
  guard-Defined false e k h = λ p. cc

  pub requires-Defined :
      (b : Bool) (k : Result B) → b ≡ true → k ≢ undefined → (requires b >> k) ≢ undefined
  requires-Defined b k e h = λ p. h (ground arith)

  pub ok-Defined : (b : B) → ok b ≢ undefined
  ok-Defined b = λ p. cc

-- A property of the value of a call, if it returns one.
abbrev pub When {ℓ κ} : {A : Type ℓ} → (A → Type κ) → Result A → Type κ
When P (ok a) = P a
When P (err e) = Unit
When P undefined = Unit

pub >>=-When {ℓ₁ ℓ₂ κ} :
    {A : Type ℓ₁} {B : Type ℓ₂} (P : B → Type κ) (m : Result A) (f : A → Result B)
    → ((a : A) → m ≡ ok a → When P (f a))
    → When P (m >>= f)
>>=-When P (ok a) f h = h a refl
>>=-When P (err e) f h = tt
>>=-When P undefined f h = tt

pub When-map {ℓ κ₁ κ₂} :
    {A : Type ℓ} (P : A → Type κ₁) (Q : A → Type κ₂) (m : Result A)
    → ((a : A) → P a → Q a)
    → When P m
    → When Q m
When-map P Q (ok a) f h = f a h
When-map P Q (err e) f h = tt
When-map P Q undefined f h = tt

-- Where a chain of calls becomes undefined.
pub >>=-undefined {ℓ₁ ℓ₂} :
    {A : Type ℓ₁} {B : Type ℓ₂} (m : Result A) (f : A → Result B)
    → (m >>= f) ≡ undefined
    → (m ≡ undefined) ⊎ ((a : A) × (m ≡ ok a) × (f a ≡ undefined))
>>=-undefined (ok a) f h = inr (a, refl, h)
>>=-undefined (err e) f h = cc
>>=-undefined undefined f h = inl refl

pub or_throw-undefined {ℓ₁ ℓ₂} :
    {A : Type ℓ₁} {B : Type ℓ₂} (o : Option A) (e : Error) (f : A → Result B)
    → (or_throw o e >>= f) ≡ undefined
    → (a : A) × (o ≡ some a) × (f a ≡ undefined)
or_throw-undefined none e f h = cc
or_throw-undefined (some a) e f h = (a, refl, h)

pub guard-undefined {ℓ} :
    {B : Type ℓ} (b : Bool) (e : Error) (k : Result B)
    → (guard b e >> k) ≡ undefined
    → (b ≡ true) × (k ≡ undefined)
guard-undefined true e k h = (refl, h)
guard-undefined false e k h = cc
