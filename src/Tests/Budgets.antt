-- ===== src/Tests/Budgets.antt =====
-- The theorems on the windows and the gate of the token budget, on a sample of numbers.
use leftovers.Base.{ℕ, ◌+◌, ◌*◌, ◌≤◌, ◌<◌, ◌≡◌, refl, ◌↔◌, true, false, none, some, arith}
use leftovers.Base.Result.{ok}
use leftovers.Base.Int.{ℤ, pos, ◌+ℤ◌, ◌-ℤ◌, ◌≤ℤ◌}
use leftovers.Models.{BudgetSnapshot}
use leftovers.Budget.Zone.{day_us}
use leftovers.Budget.Window.{wall_window_key, wall_reset, next_reset}
use leftovers.Budget.Window.Laws.{window_days, window_iff_before_reset, wall_reset_bounds}
use leftovers.Budget.Gate.{above, snapshot, can_start}
use leftovers.Budget.Gate.Laws.{Covered, can_start_iff}
use leftovers.Budget.Gate.Reserve.{start_leaves_reserve}
use leftovers.Tests.Samples.{whole_floats, utc, budget}

-- Noon of the tenth day.
abbrev noon : ℕ
noon = 820800000000

window_iff_before_reset_example :
    (noon + 1 < wall_reset budget noon)
    ↔ (wall_window_key budget (noon + 1) ≡ wall_window_key budget noon)
window_iff_before_reset_example =
    window_iff_before_reset budget noon (noon + 1) (omega arith) (omega arith) (omega arith)
      (omega arith) (omega arith) (omega arith)

wall_reset_bounds_example :
    (noon < wall_reset budget noon) × (wall_reset budget noon ≤ noon + window_days budget * day_us)
wall_reset_bounds_example = wall_reset_bounds budget noon (omega arith) (omega arith)

-- What the gate takes down at noon.
abbrev pub taken : BudgetSnapshot
taken = record {
  source = "fixed-envelope";
  remaining_tokens = some (pos 100000);
  reserve_tokens = pos 10000;
  spendable_tokens = some (pos 90000);
  confidence = "configured";
  observed_at = noon;
  resets_at = some 864000000000;
  maximum_tokens = none;
}

taken_at_noon : snapshot whole_floats budget utc (λ name. none) none noon ≡ ok taken
unfolding snapshot next_reset ◌-ℤ◌
taken_at_noon = refl

may_start : (can_start whole_floats budget taken (pos 5000)).0 ≡ true
unfolding can_start ◌+ℤ◌
may_start = refl

can_start_iff_example :
    ((can_start whole_floats budget taken (pos 5000)).0 ≡ true)
    ↔ Covered whole_floats budget taken (pos 5000) taken.spendable_tokens taken.resets_at
can_start_iff_example = can_start_iff whole_floats budget taken (pos 5000)

start_leaves_reserve_example :
    (n : ℤ) × (taken.remaining_tokens ≡ some n)
    × (above (some n) budget.maximum_tokens ≡ false)
    × (budget.reserve_tokens +ℤ pos 5000 ≤ℤ n)
start_leaves_reserve_example =
    start_leaves_reserve whole_floats budget utc (λ name. none) none noon taken (pos 5000)
      taken_at_noon may_start refl refl (omega arith) (omega arith)
