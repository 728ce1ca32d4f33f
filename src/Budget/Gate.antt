-- ===== src/Budget/Gate.antt =====
-- `BudgetGate` of src/leftovers/budget.py: the snapshot of the quota, and whether a run may start.
pub mod Laws
pub mod Reserve
use leftovers.Base.{if◌then◌else◌, suc, ◌*◌, ◌/◌, String, Bool, true, false, Option, none, some}
use Prim.Native.String.{◌++◌ as append}
use leftovers.Base.Int.{ℤ, pos, negsuc, sub_ℕ, ◌+ℤ◌, ◌-ℤ◌, ltb_ℤ, max_ℤ}
use leftovers.Base.Text.{str_eq, codes}
use leftovers.Base.Result.{Result, ok, err, ◌>>=◌, ◌>>◌, raise_if}
use leftovers.Models.{Instant, second, BudgetSnapshot}
use leftovers.Config.{BudgetConfig}
use leftovers.Config.Floats.{Floats}
use leftovers.Budget.Error.{
  remaining_not_integer, negative_remaining, remaining_above_maximum, Raised, budget_error,
}
use leftovers.Budget.Zone.{Zone}
use leftovers.Budget.Numeral.{is_blank_text, int_of}
use leftovers.Budget.Window.{next_reset}

-- What `can_start` answers, with the facts that its reason shows.
pub data Reason : Type 0 where
  covers : ℤ → ℤ → Reason
  quota_unknown : Reason
  below_required : ℤ → ℤ → Reason
  reset_unknown : Reason
  before_reset : ℤ → ℤ → Reason

-- `(later - earlier)` of two instants, in microseconds.
abbrev pub elapsed : Instant → Instant → ℤ
elapsed later earlier = sub_ℕ later earlier

-- `int(delta.total_seconds())`, which cuts the fraction off.
abbrev pub whole_seconds : ℤ → ℤ
whole_seconds (pos us) = pos (us / second)
whole_seconds (negsuc us) = sub_ℕ 0 (suc us / second)

-- A number of seconds in microseconds.
abbrev pub seconds : ℤ → ℤ
seconds (pos n) = pos (n * second)
seconds (negsuc n) = sub_ℕ 0 (suc n * second)

-- `remaining > maximum`, where both are known.
abbrev pub above : Option ℤ → Option ℤ → Bool
above (some remaining) (some maximum) = ltb_ℤ maximum remaining
above _ _ = false

abbrev pub is_negative : Option ℤ → Bool
is_negative none = false
is_negative (some n) = ltb_ℤ n (pos 0)

abbrev pub is_known : {A : Type 0} → Option A → Bool
is_known none = false
is_known (some a) = true

abbrev less_reserve : ℤ → Option ℤ → Option ℤ
less_reserve reserve none = none
less_reserve reserve (some remaining) = some (max_ℤ (pos 0) (remaining -ℤ reserve))

-- The value of the environment variable, as `snapshot` reads it.
environment_value : String → Option String → Result Raised (Option ℤ)
environment_value name none = ok none
environment_value name (some raw) =
    if is_blank_text (codes raw) then ok none else elim (int_of (codes raw)) [
      | none ↦ err (budget_error (remaining_not_integer name))
      | some n ↦ ok (some n)
    ]

-- Where the remaining count comes from, its source and its confidence.
pub record Reading : Type 0 where
  pub remaining : Option ℤ
  pub source : String
  pub confidence : String

module _ (floats : Floats) (config : BudgetConfig floats.Float) where
  reading : (String → Option String) → Option ℤ → Result Raised Reading
  unfolding environment_value
  reading environ (some override) =
      ok (record { remaining = some override; source = "cli-override"; confidence = "manual" })
  reading environ none =
      if str_eq config.source "fixed"
      then ok (record {
        remaining = config.fixed_remaining_tokens;
        source = "fixed-envelope";
        confidence = "configured";
      })
      else do
        value ← environment_value config.remaining_tokens_env (environ config.remaining_tokens_env)
        ok (record {
          remaining = value;
          source = append "environment:" config.remaining_tokens_env;
          confidence = "manual";
        })

  -- `utc_now()` is the argument `observed_at`.
  unfoldable pub snapshot :
      (String → Zone) → (String → Option String) → Option ℤ → Instant → Result Raised BudgetSnapshot
  unfolding reading
  snapshot zones environ override observed_at = do
    r ← reading environ override
    raise_if (is_negative r.remaining) (budget_error negative_remaining)
    raise_if (above r.remaining config.maximum_tokens) (budget_error remaining_above_maximum)
    resets_at ← next_reset config zones observed_at
    ok (record {
      source = r.source;
      remaining_tokens = r.remaining;
      reserve_tokens = config.reserve_tokens;
      spendable_tokens = less_reserve config.reserve_tokens r.remaining;
      confidence = if is_known r.remaining then r.confidence else "unknown";
      observed_at = observed_at;
      resets_at = some resets_at;
      maximum_tokens = config.maximum_tokens;
    })

  -- `math.ceil(estimated_tokens_p95 * self.config.safety_multiplier)`. The product is finite: at an
  -- infinite one, which an accepted multiplier cannot give, `math.ceil` raises.
  abbrev pub scaled : ℤ → ℤ
  scaled estimated = floats.ceil_mul estimated config.safety_multiplier

  abbrev pub required_tokens : ℤ → ℤ
  required_tokens estimated = max_ℤ config.minimum_spendable_tokens (scaled estimated)

  abbrev pub required_horizon : ℤ
  required_horizon = config.max_run_seconds +ℤ config.reset_safety_seconds

  start_before_reset : ℤ → ℤ → Instant → Option Instant → Bool × Reason
  start_before_reset spendable required observed_at none = (false, reset_unknown)
  start_before_reset spendable required observed_at (some resets_at) =
      let left = elapsed resets_at observed_at in
      if ltb_ℤ left (seconds required_horizon)
      then (false, before_reset (whole_seconds left) required_horizon)
      else (true, covers spendable required)

  start_with : ℤ → BudgetSnapshot → Option ℤ → Bool × Reason
  start_with required s none = (false, quota_unknown)
  start_with required s (some spendable) =
      if ltb_ℤ spendable required
      then (false, below_required spendable required)
      else start_before_reset spendable required s.observed_at s.resets_at

  unfoldable pub can_start : BudgetSnapshot → ℤ → Bool × Reason
  unfolding start_before_reset start_with
  can_start s estimated = start_with (required_tokens estimated) s s.spendable_tokens
