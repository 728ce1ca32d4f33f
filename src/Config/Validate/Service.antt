-- ===== src/Config/Validate/Service.antt =====
-- `_validate` of src/leftovers/config.py: the GitHub service, the token budget and the discovery.
use leftovers.Base.{ltb, any, ℕ, Bool, true, false, not, ◌&&◌, ◌||◌, Option, none, some, [], ◌∷◌}
use leftovers.Base.Int.{ℤ, pos, ltb_ℤ}
use leftovers.Base.Text.{str_eq, one_of, codes, str_len}
use leftovers.Config.{GitHubConfig, BudgetConfig, DiscoveryConfig}
use leftovers.Config.Floats.{Floats}
use leftovers.Config.Validate.{
  invalid, unknown_timezone, Tests, outside, below, if_given, is_space_only,
}
use leftovers.Text.Platform.{Platform}
use leftovers.Text.Patterns.{environment_name}

abbrev pub github_tests : GitHubConfig → Tests
github_tests github =
    (
      not (str_eq github.api_url "https://api.github.com"),
      invalid "v1 only supports https://api.github.com",
    )
    ∷ (
      not (environment_name (codes github.token_env)),
      invalid "github.token_env must be an environment variable name",
    )
    ∷ (
      outside 1 60 github.request_timeout_seconds,
      invalid "github.request_timeout_seconds must be between 1 and 60",
    )
    ∷ (
      outside 1 1000 github.max_read_requests_per_run,
      invalid "github.max_read_requests_per_run must be between 1 and 1000",
    )
    ∷ []

abbrev pub is_none : Option ℤ → Bool
is_none none = true
is_none (some x) = false

-- Both are configured and the first is the larger.
abbrev pub larger : Option ℤ → Option ℤ → Bool
larger (some a) (some b) = ltb_ℤ b a
larger _ _ = false

module _ (floats : Floats) where
  abbrev pub float_outside : ℕ → ℕ → floats.Float → Bool
  float_outside low high x =
      not (floats.le (floats.of_int (pos low)) x && floats.le x (floats.of_int (pos high)))

  abbrev pub budget_tests : Platform → BudgetConfig floats.Float → Tests
  budget_tests platform budget =
      (
        not (one_of budget.source ("environment" ∷ "fixed" ∷ [])),
        invalid "budget.source must be environment or fixed",
      )
      ∷ (
        str_eq budget.source "fixed" && is_none budget.fixed_remaining_tokens,
        invalid "budget.fixed_remaining_tokens is required for the fixed source",
      )
      ∷ (
        below budget.reserve_tokens 0 || below budget.minimum_spendable_tokens 0,
        invalid "budget reserve and minimum values cannot be negative",
      )
      ∷ (
        if_given (λ n. below n 0) budget.fixed_remaining_tokens,
        invalid "budget.fixed_remaining_tokens cannot be negative",
      )
      ∷ (
        if_given (λ n. below n 1) budget.maximum_tokens,
        invalid "budget.maximum_tokens must be positive when configured",
      )
      ∷ (
        larger budget.fixed_remaining_tokens budget.maximum_tokens,
        invalid "budget.fixed_remaining_tokens cannot exceed budget.maximum_tokens",
      )
      ∷ (
        not (floats.is_finite budget.safety_multiplier)
            || float_outside 1 3 budget.safety_multiplier,
        invalid "budget.safety_multiplier must be between 1 and 3",
      )
      ∷ (
        not (environment_name (codes budget.remaining_tokens_env)),
        invalid "budget.remaining_tokens_env must be an environment variable name",
      )
      ∷ (
        not (one_of budget.window ("daily" ∷ "weekly" ∷ [])),
        invalid "budget.window must be daily or weekly",
      )
      ∷ (outside 0 23 budget.reset_hour, invalid "budget.reset_hour must be between 0 and 23")
      ∷ (outside 0 6 budget.reset_weekday, invalid "budget.reset_weekday must be between 0 and 6")
      ∷ (
        outside 60 7200 budget.max_run_seconds,
        invalid "budget.max_run_seconds must be between 60 and 7200",
      )
      ∷ (
        outside 0 3600 budget.reset_safety_seconds,
        invalid "budget.reset_safety_seconds must be between 0 and 3600",
      )
      ∷ (not (platform.has_zone budget.timezone), unknown_timezone budget.timezone)
      ∷ []

abbrev pub discovery_tests : DiscoveryConfig → Tests
discovery_tests discovery =
    (
      outside 1 100 discovery.per_repo_limit,
      invalid "discovery.per_repo_limit must be between 1 and 100",
    )
    ∷ (
      outside 1 500 discovery.max_candidates,
      invalid "discovery.max_candidates must be between 1 and 500",
    )
    ∷ (
      is_space_only discovery.query || ltb 1000 (str_len discovery.query),
      invalid "discovery.query must contain at most 1000 characters",
    )
    ∷ (
      any (λ c. ltb c 32) (codes discovery.query),
      invalid "discovery.query may not contain control characters",
    )
    ∷ []
