-- ===== src/Tests/Ledgers.antt =====
-- The theorems on the two ledgers, on tables that a few calls make.
use leftovers.Base.{◌≡◌, refl, ◌⊎◌, [], ◌∷◌, arith}
use leftovers.Base.Int.{pos, ◌≤ℤ◌}
use leftovers.Models.Stages.{failed, value}
use leftovers.Budget.Error.{daily}
use leftovers.Budget.Ledger.{Table, reserved_tokens, new_row, reserve, finish}
use leftovers.Budget.Ledger.Sums.{reserved_tokens-finish}
use leftovers.Budget.Ledger.Outcome.{IsRefused, IsRepeated, IsNew, reserve_outcome}
use leftovers.Budget.Ledger.Envelope.{Step, Reached, envelope}
use leftovers.Tests.Samples.{whole_floats, utc, budget}
use leftovers.Tests.Budgets.{taken}

abbrev one_row : Table
one_row = new_row "run" (daily 9) (pos 10000) taken.observed_at ∷ []

reserve_outcome_example :
    let after = reserve whole_floats budget utc "run" taken (pos 5000) taken.observed_at [] in
    IsRefused whole_floats budget utc "run" taken (pos 5000) taken.observed_at [] after
    ⊎ IsRepeated whole_floats budget utc "run" taken (pos 5000) taken.observed_at [] after
    ⊎ IsNew whole_floats budget utc "run" taken (pos 5000) taken.observed_at [] after
reserve_outcome_example =
    reserve_outcome whole_floats budget utc "run" taken (pos 5000) taken.observed_at []

envelope_example :
    reserved_tokens
      (daily 9)
      (reserve whole_floats budget utc "run" taken (pos 5000) taken.observed_at []).1
    ≤ℤ pos 90000
envelope_example =
    envelope whole_floats budget utc (daily 9) (pos 90000)
      (reserve whole_floats budget utc "run" taken (pos 5000) taken.observed_at []).1 (omega arith)
      (Reached.next Reached.created
        (Step.reserved "run" taken (pos 5000) taken.observed_at [] λ _. omega arith))

reserved_tokens-finish_example :
    reserved_tokens (daily 9) (finish "run" (value failed) taken.observed_at one_row)
    ≡ reserved_tokens (daily 9) one_row
reserved_tokens-finish_example =
    reserved_tokens-finish (daily 9) "run" failed taken.observed_at one_row (refl, tt)
