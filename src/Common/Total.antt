-- ===== src/Common/Total.antt =====
-- Calls that have no undefined behaviour, and whose value has a property if they return one.
use mathlib.Core.Path.{◌≡◌, refl}
use mathlib.Core.Bool.{Bool, true, false}
use mathlib.Core.Logic.{◌≢◌}
use mathlib.Core.Option.{Option, none, some}
use libonionrequests.Common.Outcome.{Result, ok, err, undefined, Error, ◌>>=◌, or_throw, guard}
use libonionrequests.Common.Defined.{When}

abbrev pub Ensures {ℓ} : {A : Type ℓ} → (A → Type 0) → Result A → Type 0
Ensures P (ok a) = P a
Ensures P (err e) = Unit {0}
Ensures P undefined = ⊥

module _ {ℓ} {A : Type ℓ} (P : A → Type 0) where
  pub When-Ensures : (m : Result A) → m ≢ undefined → When P m → Ensures P m
  When-Ensures (ok a) d h = h
  When-Ensures (err e) d h = tt
  When-Ensures undefined d h = absurd (d refl)

  pub Ensures-Defined : (m : Result A) → Ensures P m → m ≢ undefined
  Ensures-Defined (ok a) h = λ p. cc
  Ensures-Defined (err e) h = λ p. cc
  Ensures-Defined undefined h = absurd h

  pub Ensures-When : (m : Result A) → Ensures P m → When P m
  Ensures-When (ok a) h = h
  Ensures-When (err e) h = tt
  Ensures-When undefined h = absurd h

module _ {ℓ₁ ℓ₂} {A : Type ℓ₁} {B : Type ℓ₂} (P : A → Type 0) (Q : B → Type 0) where
  -- What follows a call may rely on what the call ensures.
  pub >>=-Ensures :
      (m : Result A) (f : A → Result B)
      → Ensures P m
      → ((a : A) → P a → Ensures Q (f a))
      → Ensures Q (m >>= f)
  >>=-Ensures (ok a) f h k = k a h
  >>=-Ensures (err e) f h k = tt
  >>=-Ensures undefined f h k = absurd h

pub or_throw-Ensures {ℓ₁ ℓ₂} :
    {A : Type ℓ₁} {B : Type ℓ₂} (Q : B → Type 0) (o : Option A) (e : Error) (f : A → Result B)
    → ((a : A) → o ≡ some a → Ensures Q (f a))
    → Ensures Q (or_throw o e >>= f)
or_throw-Ensures Q none e f k = tt
or_throw-Ensures Q (some a) e f k = k a refl

pub or_throw-ok {ℓ} :
    {A : Type ℓ} (o : Option A) (e : Error) (a : A) → or_throw o e ≡ ok a → o ≡ some a
or_throw-ok none e a h = cc
or_throw-ok (some b) e a h = cc

pub guard-ok : (b : Bool) (e : Error) (u : Unit {0}) → guard b e ≡ ok u → b ≡ true
guard-ok true e u h = refl
guard-ok false e u h = cc
