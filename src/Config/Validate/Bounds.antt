-- ===== src/Config/Validate/Bounds.antt =====
-- What a configuration that `_validate` of src/leftovers/config.py accepts guarantees of the numbers
-- that the budget, the publication ledger, the repair loop and the diff gate read.
use leftovers.Base.{or_iff, All, ℕ, ◌≡◌, Bool, true, false, not, ◌&&◌, ◌||◌, arith}
use leftovers.Base.Result.{Result, ok, ◌>>◌}
use leftovers.Base.Int.{ℤ, pos, ◌≤ℤ◌, ltb_ℤ, ltb_ℤ-false}
use leftovers.Config.{BudgetConfig, PolicyConfig, AgentConfig, PublicationConfig, AppConfig}
use leftovers.Config.Floats.{Floats}
use leftovers.Config.Validate.{
  ConfigError, Tests, raise_first, below, above, raise_first-ok, >>-eq-ok, outside-false,
}
use leftovers.Config.Validate.Service.{github_tests, budget_tests, discovery_tests}
use leftovers.Config.Validate.Sandbox.{sandbox_tests}
use leftovers.Config.Validate.Agent.{
  codex_tests, limit_tests, identity_tests, environment_tests, credential_tests,
}
use leftovers.Config.Validate.Rules.{
  is_draft, mode_tests, account_tests, invariant_tests, change_tests, check_repositories,
  scoring_tests, validate,
}
use leftovers.Text.Platform.{Platform}

-- `low <= x <= high`.
abbrev pub Within : ℕ → ℕ → ℤ → Type 0
Within low high x = (pos low ≤ℤ x) × (x ≤ℤ pos high)

module _ (floats : Floats) where
  abbrev pub HasBudgetBounds : BudgetConfig floats.Float → Type 0
  HasBudgetBounds budget =
      (pos 0 ≤ℤ budget.reserve_tokens)
      × (pos 0 ≤ℤ budget.minimum_spendable_tokens)
      × (floats.is_finite budget.safety_multiplier ≡ true)
      × (floats.le (floats.of_int (pos 1)) budget.safety_multiplier ≡ true)
      × Within 0 23 budget.reset_hour
      × Within 0 6 budget.reset_weekday
      × Within 60 7200 budget.max_run_seconds
      × Within 0 3600 budget.reset_safety_seconds

abbrev pub HasAgentBounds : AgentConfig → Type 0
HasAgentBounds agent =
    (pos 1 ≤ℤ agent.estimated_tokens_p50)
    × (agent.estimated_tokens_p50 ≤ℤ agent.estimated_tokens_p95)
    × (agent.estimated_tokens_p95 ≤ℤ pos 10000000)
    × Within 0 3 agent.max_repair_cycles

abbrev pub HasPublicationBounds : PublicationConfig → Type 0
HasPublicationBounds publication =
    Within 1 5 publication.max_prs_per_window
    × Within 1 100 publication.max_open_prs_per_repository
    × Within 0 365 publication.repository_cooldown_days

abbrev pub HasChangeBounds : PolicyConfig → Type 0
HasChangeBounds policy =
    Within 1 100 policy.max_changed_files
    × Within 1 10000 policy.max_changed_lines
    × Within 1 10000000 policy.max_patch_bytes

pub below-false : (x : ℤ) (n : ℕ) → below x n ≡ false → pos n ≤ℤ x
below-false x n h = ground arith

above-false : (x : ℤ) (n : ℕ) → above x n ≡ false → x ≤ℤ pos n
above-false x n h = ground arith

Within-of : (low high : ℕ) (x : ℤ) → below x low ≡ false → above x high ≡ false → Within low high x
Within-of low high x h k = (below-false x low h, above-false x high k)

pub or_false : (a b : Bool) → (a || b) ≡ false → (a ≡ false) × (b ≡ false)
or_false a b h = (or_iff a b).0 h

finite_and_one :
    (finite one three : Bool)
    → (not finite || not (one && three)) ≡ false
    → (finite ≡ true) × (one ≡ true)
finite_and_one finite one three h = (ground arith, ground arith)

abbrev pub Passes : Tests → Type 0
Passes tests = All {A = Bool × ConfigError} (λ t. t.0 ≡ false) tests

-- What every section's tests say of an accepted configuration.
pub record IsAccepted (platform : Platform) (floats : Floats) (config : AppConfig floats.Float)
    : Type 0 where
  pub budget : Passes (budget_tests floats platform config.budget)
  pub agent : Passes (limit_tests config.agent)
  pub credential : Passes (credential_tests config.github.token_env config.agent)
  pub mode : Passes (mode_tests config.publication config.agent.backend config.sandbox.image)
  pub account : Passes (account_tests config.publication)
  pub invariant : Passes (invariant_tests config.policy config.publication)
  pub change : Passes (change_tests config.policy)
  pub repositories : check_repositories (is_draft config.publication) 0 config.repositories ≡ ok tt

pub then_first :
    (tests : Tests) (k : Result ConfigError Unit)
    → (raise_first tests >> k) ≡ ok tt
    → Passes tests × (k ≡ ok tt)
then_first tests k h =
    let (first, rest) = >>-eq-ok (raise_first tests) k h in (raise_first-ok tests first, rest)

six_false :
    (a b c d e f : Bool)
    → (a || b || c || d || e || f) ≡ false
    → (a ≡ false) × (b ≡ false) × (c ≡ false) × (d ≡ false) × (e ≡ false) × (f ≡ false)
six_false a b c d e f h =
    (ground arith, ground arith, ground arith, ground arith, ground arith, ground arith)

eight_false :
    (a b c d e f g i : Bool)
    → (a || b || c || d || e || f || g || i) ≡ false
    → ((a ≡ false) × (b ≡ false) × (c ≡ false)) × ((e ≡ false) × (f ≡ false) × (g ≡ false))
eight_false a b c d e f g i h =
    ((ground arith, ground arith, ground arith), (ground arith, ground arith, ground arith))

budget_bounds :
    (platform : Platform) (floats : Floats) (budget : BudgetConfig floats.Float)
    → Passes (budget_tests floats platform budget)
    → HasBudgetBounds floats budget
budget_bounds platform floats budget h =
    let (reserve, least) = or_false (below budget.reserve_tokens 0) _ h.1.1.0 in
    let multiplier = h.1.1.1.1.1.1 in
    let (finite, one) =
      finite_and_one (floats.is_finite budget.safety_multiplier)
        (floats.le (floats.of_int (pos 1)) budget.safety_multiplier) _ multiplier.0 in
    let window = multiplier.1.1.1 in
    (
      below-false budget.reserve_tokens 0 reserve,
      below-false budget.minimum_spendable_tokens 0 least,
      finite,
      one,
      outside-false 0 23 budget.reset_hour window.0,
      outside-false 0 6 budget.reset_weekday window.1.0,
      outside-false 60 7200 budget.max_run_seconds window.1.1.0,
      outside-false 0 3600 budget.reset_safety_seconds window.1.1.1.0,
    )

agent_bounds : (agent : AgentConfig) → Passes (limit_tests agent) → HasAgentBounds agent
agent_bounds agent h =
    let least = (or_false _ (below agent.checkin_timeout_seconds 1) (or_false _ _ h.0).0).0 in
    let (front, cycles) = or_false _ (below agent.max_repair_cycles 0) least in
    let (rest, ordered) =
      or_false _ (ltb_ℤ agent.estimated_tokens_p95 agent.estimated_tokens_p50) front in
    let (_, least_p50) = or_false _ (below agent.estimated_tokens_p50 1) rest in
    let (_, _, most_p95, most_cycles, _, _) =
      six_false (above agent.timeout_seconds 14400) (above agent.max_output_bytes 1000000)
        (above agent.estimated_tokens_p95 10000000) (above agent.max_repair_cycles 3) _ _ h.1.0 in
    (
      below-false agent.estimated_tokens_p50 1 least_p50,
      ltb_ℤ-false agent.estimated_tokens_p95 agent.estimated_tokens_p50 ordered,
      above-false agent.estimated_tokens_p95 10000000 most_p95,
      Within-of 0 3 agent.max_repair_cycles cycles most_cycles,
    )

publication_bounds :
    (publication : PublicationConfig)
    → Passes (account_tests publication)
    → HasPublicationBounds publication
publication_bounds publication h =
    let (prs, open_prs, days, most_prs, most_open, most_days) =
      six_false (below publication.max_prs_per_window 1)
        (below publication.max_open_prs_per_repository 1)
        (below publication.repository_cooldown_days 0) (above publication.max_prs_per_window 5)
        (above publication.max_open_prs_per_repository 100)
        (above publication.repository_cooldown_days 365) h.1.1.1.1.0 in
    (
      Within-of 1 5 publication.max_prs_per_window prs most_prs,
      Within-of 1 100 publication.max_open_prs_per_repository open_prs most_open,
      Within-of 0 365 publication.repository_cooldown_days days most_days,
    )

change_bounds : (policy : PolicyConfig) → Passes (change_tests policy) → HasChangeBounds policy
change_bounds policy h =
    let ((files, lines, bytes), (most_files, most_lines, most_bytes)) =
      eight_false (below policy.max_changed_files 1) (below policy.max_changed_lines 1)
        (below policy.max_patch_bytes 1) (below policy.ai_policy_max_age_days 1)
        (above policy.max_changed_files 100) (above policy.max_changed_lines 10000)
        (above policy.max_patch_bytes 10000000) (above policy.ai_policy_max_age_days 365) h.0 in
    (
      Within-of 1 100 policy.max_changed_files files most_files,
      Within-of 1 10000 policy.max_changed_lines lines most_lines,
      Within-of 1 10000000 policy.max_patch_bytes bytes most_bytes,
    )

module _ (platform : Platform) (floats : Floats) (config : AppConfig floats.Float) where
  pub validate-IsAccepted :
      validate platform floats config ≡ ok tt → IsAccepted platform floats config
  unfolding validate
  validate-IsAccepted h =
      let (_, h1) = then_first (github_tests config.github) _ h in
      let (budget, h2) = then_first (budget_tests floats platform config.budget) _ h1 in
      let (_, h3) = then_first (discovery_tests config.discovery) _ h2 in
      let (_, h4) = then_first (sandbox_tests floats config.sandbox) _ h3 in
      let (_, h5) = then_first (identity_tests config.agent) _ h4 in
      let (_, h6) = then_first (codex_tests platform config.agent) _ h5 in
      let (_, h7) = then_first (environment_tests config.agent) _ h6 in
      let (agent, h8) = then_first (limit_tests config.agent) _ h7 in
      let (credential, h9) =
        then_first (credential_tests config.github.token_env config.agent) _ h8 in
      let (mode, h10) =
        then_first (mode_tests config.publication config.agent.backend config.sandbox.image) _ h9 in
      let (account, h11) = then_first (account_tests config.publication) _ h10 in
      let (invariant, h12) = then_first (invariant_tests config.policy config.publication) _ h11 in
      let (_, h13) = then_first (scoring_tests platform floats config.scoring) _ h12 in
      let (change, h14) = then_first (change_tests config.policy) _ h13 in
      record {
        budget = budget;
        agent = agent;
        credential = credential;
        mode = mode;
        account = account;
        invariant = invariant;
        change = change;
        repositories = h14;
      }

  -- A configuration that the validation accepts has its numbers within the bounds that the other
  -- parts rely on: no negative reserve, a finite multiplier of one or more, a reset hour and weekday
  -- that exist, a bounded run, ordered token estimates, at most three repairs, positive caps, a
  -- cooldown that is not negative, and bounded change limits.
  pub validate-bounds :
      validate platform floats config ≡ ok tt
      → HasBudgetBounds floats config.budget
        × HasAgentBounds config.agent
        × HasPublicationBounds config.publication
        × HasChangeBounds config.policy
  validate-bounds h =
      let accepted = validate-IsAccepted h in
      (
        budget_bounds platform floats config.budget accepted.budget,
        agent_bounds config.agent accepted.agent,
        publication_bounds config.publication accepted.account,
        change_bounds config.policy accepted.change,
      )
