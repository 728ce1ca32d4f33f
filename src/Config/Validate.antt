-- ===== src/Config/Validate.antt =====
-- `_validate` of src/leftovers/config.py, section by section in the modules below: its tests in the
-- order of the source, each with the `ConfigError` it raises.
pub mod Service
pub mod Sandbox
pub mod Agent
pub mod Rules
pub mod Bounds
pub mod Publishing
pub mod Environment
use leftovers.Base.{
  ltb, ◌==◌, if◌then◌else◌, length, any, all, All, ℕ, String, ◌≡◌, refl, Bool, true, false, not,
  ◌&&◌, ◌||◌, Option, none, some, List, [], ◌∷◌, arith,
}
use leftovers.Base.Result.{Result, ok, err, ◌>>◌}
use leftovers.Base.Int.{ℤ, pos, ◌≤ℤ◌, ltb_ℤ, leb_ℤ}
use leftovers.Base.Text.{codes, str_len}
use leftovers.Config.Ref.{is_space}

-- `invalid` and `entry` (of one repository, by its index) hold the fixed text of their message.
pub data ConfigError : Type 0 where
  invalid : String → ConfigError
  unknown_timezone : String → ConfigError
  agent_identifier : String → ConfigError
  exposed_credentials : List String → ConfigError
  entry : ℕ → String → ConfigError

abbrev pub Tests : Type 0
Tests = List (Bool × ConfigError)

-- A row of `if test: raise ConfigError(message)`.
abbrev pub raise_first : Tests → Result ConfigError Unit
raise_first [] = ok tt
raise_first ((test, e) ∷ rest) = if test then err e else raise_first rest

-- `not low <= x <= high`.
abbrev pub outside : ℕ → ℕ → ℤ → Bool
outside low high x = not (leb_ℤ (pos low) x && leb_ℤ x (pos high))

abbrev pub below : ℤ → ℕ → Bool
below x n = ltb_ℤ x (pos n)

abbrev pub above : ℤ → ℕ → Bool
above x n = ltb_ℤ (pos n) x

-- A test on an optional value that `None` passes.
abbrev pub if_given {ℓ} : {A : Type ℓ} → (A → Bool) → Option A → Bool
if_given p none = false
if_given p (some x) = p x

-- `not value.strip()`.
abbrev pub is_space_only : String → Bool
is_space_only s = all is_space (codes s)

-- `len(argv) > 64 or any(len(argument) > 4_096 or "\0" in argument for argument in argv)`.
abbrev pub argv_too_large : List String → Bool
argv_too_large argv =
    ltb 64 (length argv) || any (λ a. ltb 4096 (str_len a) || any (λ c. c == 0) (codes a)) argv

pub raise_first-ok :
    (tests : Tests)
    → raise_first tests ≡ ok tt
    → All {A = Bool × ConfigError} (λ t. t.0 ≡ false) tests
raise_first-ok [] h = tt
raise_first-ok ((true, e) ∷ rest) h = cc
raise_first-ok ((false, e) ∷ rest) h = (refl, raise_first-ok rest h)

pub >>-eq-ok : (m k : Result ConfigError Unit) → (m >> k) ≡ ok tt → (m ≡ ok tt) × (k ≡ ok tt)
>>-eq-ok (ok tt) k h = (refl, h)
>>-eq-ok (err e) k h = cc

pub outside-false :
    (low high : ℕ) (x : ℤ) → outside low high x ≡ false → (pos low ≤ℤ x) × (x ≤ℤ pos high)
outside-false low high x h = (ground arith, ground arith)
