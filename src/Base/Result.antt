-- ===== src/Base/Result.antt =====
-- Calls that may raise: a value, or the exception. `Exec` adds a state that survives a raise.
use mathlib.Core.Path.{◌≡◌, refl}
use mathlib.Core.Bool.{Bool, true, false}
use leftovers.Base.Tests.{if◌then◌else◌}

pub data Result {ℓ} (Raises Value : Type ℓ) : Type ℓ where
  err : Raises → Result Raises Value
  ok : Value → Result Raises Value

module _ {ℓ} {Raises : Type ℓ} where
  -- `if test: raise e`.
  abbrev pub raise_if : Bool → Raises → Result Raises (Unit {ℓ})
  raise_if test e = if test then err e else ok tt

  infixl 10 ◌>>=◌ ◌>>◌
  abbrev pub ◌>>=◌ : {A B : Type ℓ} → Result Raises A → (A → Result Raises B) → Result Raises B
  err e >>= next = err e
  ok value >>= next = next value

  abbrev pub ◌>>◌ : {A B : Type ℓ} → Result Raises A → Result Raises B → Result Raises B
  first >> second = first >>= λ _. second

  -- Inversion of a successful bind.
  pub >>=-eq-ok :
      {A B : Type ℓ} (m : Result Raises A) (next : A → Result Raises B) {b : B}
      → (m >>= next) ≡ ok b
      → (a : A) × (m ≡ ok a) × (next a ≡ ok b)
  >>=-eq-ok (err e) next h = cc
  >>=-eq-ok (ok value) next h = (value, refl, h)

  pub ok-injective : {A : Type ℓ} {a b : A} → ◌≡◌ {A = Result Raises A} (ok a) (ok b) → a ≡ b
  ok-injective h = cc

  -- What a check that was passed tells.
  pub raise_if-ok :
      {A : Type ℓ} (test : Bool) (e : Raises) {next : Result Raises A} {a : A}
      → (raise_if test e >> next) ≡ ok a
      → (test ≡ false) × (next ≡ ok a)
  raise_if-ok true e h = cc
  raise_if-ok false e h = (refl, h)
