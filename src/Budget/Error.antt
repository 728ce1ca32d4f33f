-- ===== src/Budget/Error.antt =====
-- What budget.py raises: a `BudgetError` with the facts that its message shows, a plain
-- `ValueError`, and the `sqlite3.Error` of a row that breaks a constraint.
use leftovers.Base.{ℕ, String}
use leftovers.Base.Int.{ℤ}

-- A quota window, named by the day that it starts on, counted from 0001-01-01. `isoformat` spells
-- different days differently, so the text of a key determines this value and the reverse.
pub data WindowKey : Type 0 where
  daily : ℕ → WindowKey
  weekly : ℕ → WindowKey

pub data BudgetError : Type 0 where
  remaining_not_integer : String → BudgetError
  negative_remaining : BudgetError
  remaining_above_maximum : BudgetError
  unknown_quota : BudgetError
  stale_snapshot : BudgetError
  window_changed : BudgetError
  too_near_reset : BudgetError
  window_exhausted : WindowKey → ℤ → ℤ → BudgetError

pub data Raised : Type 0 where
  budget_error : BudgetError → Raised
  value_error : Raised
  integrity_error : Raised
