-- ===== src/Base/Lists.antt =====
-- Lists measured by native numbers, tests over a list, and Python's order-preserving deduplication.
use Prim.Native.Nat.{ℕ, suc, ◌+◌}
use mathlib.Core.Path.{◌≡◌, refl}
use mathlib.Core.Logic.{◌↔◌}
use mathlib.Core.Bool.{Bool, true, false, ◌&&◌, ◌||◌}
use mathlib.Core.List.{List, [], ◌∷◌, ◌++◌}
use native.Mathlib.Omega.{arith}
use leftovers.Base.Tests.{if◌then◌else◌}

module _ {ℓ} {A : Type ℓ} where
  abbrev pub length : List A → ℕ
  length [] = 0
  length (x ∷ xs) = suc (length xs)

  -- `any(p(x) for x in xs)` and `all(p(x) for x in xs)`.
  abbrev pub any : (A → Bool) → List A → Bool
  any p [] = false
  any p (x ∷ xs) = p x || any p xs

  abbrev pub all : (A → Bool) → List A → Bool
  all p [] = true
  all p (x ∷ xs) = p x && all p xs

  -- `[x for x in xs if p(x)]`.
  abbrev pub keep : (A → Bool) → List A → List A
  keep p [] = []
  keep p (x ∷ xs) = if p x then x ∷ keep p xs else keep p xs

  -- `not xs`.
  abbrev pub is_empty : List A → Bool
  is_empty [] = true
  is_empty (x ∷ xs) = false

  -- `[message]` where the test holds, nothing otherwise.
  abbrev pub when : Bool → A → List A
  when b x = if b then x ∷ [] else []

  abbrev pub All {κ} : (A → Type κ) → List A → Type κ
  All P [] = Unit
  All P (x ∷ xs) = P x × All P xs

  pub length-append : (xs ys : List A) → length (xs ++ ys) ≡ length xs + length ys
  length-append [] ys = omega arith
  length-append (x ∷ xs) ys = omega (arith, length-append xs ys)

  pub All-append {κ} : (P : A → Type κ) (xs ys : List A) → All P xs → All P ys → All P (xs ++ ys)
  All-append P [] ys h k = k
  All-append P (x ∷ xs) ys h k = (h.0, All-append P xs ys h.1 k)

  pub append-eq-nil : (xs ys : List A) → (xs ++ ys ≡ []) ↔ ((xs ≡ []) × (ys ≡ []))
  append-eq-nil [] ys = (λ h. (refl, h), λ h. h.1)
  append-eq-nil (x ∷ xs) ys = (λ h. cc, λ h. cc (h.0))

  pub when-eq-nil : (b : Bool) (x : A) → (when b x ≡ []) ↔ (b ≡ false)
  when-eq-nil b x = ground arith

  pub All-false : (p : A → Bool) (xs : List A) → any p xs ≡ false → All (λ x. p x ≡ false) xs
  All-false p [] h = tt
  All-false p (x ∷ xs) h = (ground arith, All-false p xs (ground arith))

  -- What follows from a fact and its companion at every element.
  pub All-zip {κ μ ν} :
      (P : A → Type κ) (Q : A → Type μ) (R : A → Type ν) (xs : List A)
      → ((x : A) → P x → Q x → R x)
      → All P xs
      → All Q xs
      → All R xs
  All-zip P Q R [] f h k = tt
  All-zip P Q R (x ∷ xs) f h k = (f x h.0 k.0, All-zip P Q R xs f h.1 k.1)

  -- The messages whose tests hold, in order: `if test: failures.append(message)` again and again.
  abbrev pub reports : List (Bool × A) → List A
  reports [] = []
  reports ((test, message) ∷ rest) = if test then message ∷ reports rest else reports rest

module _ {ℓ} {A : Type ℓ} where
  pub reports-eq-nil :
      (tests : List (Bool × A)) → (reports tests ≡ []) ↔ All {A = Bool × A} (λ t. t.0 ≡ false) tests
  reports-eq-nil [] = (λ h. tt, λ h. refl)
  reports-eq-nil ((true, message) ∷ rest) = (λ h. cc, λ h. cc (h.0))
  reports-eq-nil ((false, message) ∷ rest) =
      let f = reports-eq-nil rest in (λ h. (refl, f.0 h), λ h. f.1 h.1)
