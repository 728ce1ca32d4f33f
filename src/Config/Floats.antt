-- ===== src/Config/Floats.antt =====
-- Python's binary64 floats, as far as the controller computes with them, and what IEEE 754
-- arithmetic gives for the numbers that occur. The operations and laws are a parameter.
use leftovers.Base.{ℕ, ◌≤◌, ◌≡◌, Bool, true}
use leftovers.Base.Int.{ℤ, pos, ◌≤ℤ◌}

pub record Floats : Type 1 where
  pub Float : Type 0
  -- `float(n)`, and the exact comparison of a float with an integer or a float.
  pub of_int : ℤ → Float
  pub is_finite : Float → Bool
  pub le : Float → Float → Bool
  pub lt : Float → Float → Bool
  -- `math.ceil(n * x)` for an integer `n`.
  pub ceil_mul : ℤ → Float → ℤ
  -- Rounding is monotone and an integer up to 2 ^ 53 is a float, so that scaling a count up by a
  -- finite factor of one or more does not lower it.
  pub ceil_mul-le :
      (n : ℕ) (x : Float)
      → n ≤ 9007199254740992
      → is_finite x ≡ true
      → le (of_int (pos 1)) x ≡ true
      → pos n ≤ℤ ceil_mul (pos n) x
