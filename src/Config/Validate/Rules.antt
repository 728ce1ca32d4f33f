-- ===== src/Config/Validate/Rules.antt =====
-- `_validate` of src/leftovers/config.py: publication, scoring, policy and the repositories, and the
-- whole validation.
use leftovers.Base.{
  any, is_empty, ℕ, suc, String, Bool, true, false, not, ◌&&◌, ◌||◌, Option, none, some, List, [],
  ◌∷◌, ◌++◌,
}
use leftovers.Base.Result.{Result, ok, ◌>>◌}
use leftovers.Base.Text.{str_eq, one_of, codes, is_blank}
use leftovers.Config.{ScoringConfig, PolicyConfig, PublicationConfig, RepositoryConfig, AppConfig}
use leftovers.Config.Floats.{Floats}
use leftovers.Config.Ref.{starts, safe_git_ref}
use leftovers.Config.Validate.{
  ConfigError, invalid, entry, Tests, raise_first, outside, below, above, if_given,
}
use leftovers.Config.Validate.Service.{
  github_tests, is_none, float_outside, budget_tests, discovery_tests,
}
use leftovers.Config.Validate.Sandbox.{sandbox_tests}
use leftovers.Config.Validate.Agent.{
  codex_tests, limit_tests, identity_tests, environment_tests, credential_tests,
}
use leftovers.Text.Platform.{Platform}
use leftovers.Text.Patterns.{github_login, pinned_image}

abbrev pub is_draft : PublicationConfig → Bool
is_draft publication = str_eq publication.mode "draft-pr"

-- `not value`, of an optional text.
abbrev pub is_missing : Option String → Bool
is_missing none = true
is_missing (some s) = is_blank s

abbrev pub mode_tests : PublicationConfig → String → String → Tests
mode_tests publication backend image =
    (
      not (one_of publication.mode ("dry-run" ∷ "draft-pr" ∷ [])),
      invalid "publication.mode must be dry-run or draft-pr",
    )
    ∷ (not publication.require_cli_flag, invalid "v1 requires publication.require_cli_flag = true")
    ∷ (is_draft publication && not publication.draft, invalid "v1 only publishes draft PRs")
    ∷ (
      is_draft publication && not (str_eq backend "container"),
      invalid "draft publication requires the container agent backend; codex-cli is dry-run only",
    )
    ∷ (
      is_draft publication && not (pinned_image (codes image)),
      invalid "draft publication requires sandbox.image pinned by SHA-256 digest",
    )
    ∷ []

abbrev pub account_tests : PublicationConfig → Tests
account_tests publication =
    (
      not (safe_git_ref (codes publication.branch_prefix ++ codes "/issue-1")),
      invalid "publication.branch_prefix is not a safe Git ref prefix",
    )
    ∷ (
      if_given (λ login. not (github_login (codes login))) publication.expected_login,
      invalid "publication.expected_login is not a valid GitHub login",
    )
    ∷ (
      if_given (λ id. below id 1) publication.expected_user_id,
      invalid "publication.expected_user_id must be positive",
    )
    ∷ (
      is_draft publication
          && (is_missing publication.expected_login || is_none publication.expected_user_id),
      invalid "draft publication requires an expected GitHub login and user id",
    )
    ∷ (
      below publication.max_prs_per_window 1
          || below publication.max_open_prs_per_repository 1
          || below publication.repository_cooldown_days 0
          || above publication.max_prs_per_window 5
          || above publication.max_open_prs_per_repository 100
          || above publication.repository_cooldown_days 365,
      invalid "publication caps or cooldown are outside conservative bounds",
    )
    ∷ []

abbrev pub invariant_tests : PolicyConfig → PublicationConfig → Tests
invariant_tests policy publication =
    (
      not (
          policy.require_unassigned && policy.require_no_open_linked_pr && policy.require_license
          && policy.forbid_dependency_changes && publication.disclose_ai_assistance),
      invalid "v1 safety and AI-disclosure invariants may not be disabled",
    )
    ∷ []

abbrev pub weights : {Float : Type 0} → ScoringConfig Float → List Float
weights scoring =
    scoring.repository_impact_weight ∷ scoring.urgency_weight ∷ scoring.user_demand_weight
    ∷ scoring.maintainer_signal_weight ∷ scoring.tractability_weight ∷ scoring.neglect_weight
    ∷ scoring.technical_risk_penalty ∷ scoring.collision_risk_penalty
    ∷ scoring.scope_uncertainty_penalty ∷ []

abbrev pub change_tests : PolicyConfig → Tests
change_tests policy =
    (
      below policy.max_changed_files 1
          || below policy.max_changed_lines 1
          || below policy.max_patch_bytes 1
          || below policy.ai_policy_max_age_days 1
          || above policy.max_changed_files 100
          || above policy.max_changed_lines 10000
          || above policy.max_patch_bytes 10000000
          || above policy.ai_policy_max_age_days 365,
      invalid "change limits are outside conservative bounds",
    )
    ∷ []

-- `repository.ai_contributions_allowed is True`.
abbrev pub is_allowed : Option Bool → Bool
is_allowed none = false
is_allowed (some b) = b

abbrev pub not_https : Option String → Bool
not_https none = true
not_https (some url) = is_blank url || not (starts (codes url) (codes "https://"))

-- The body of the loop over the repositories.
abbrev pub repository_tests : {Float : Type 0} → Bool → ℕ → RepositoryConfig Float → Tests
repository_tests draft index repository =
    (
      if_given (λ n. not (one_of n ("none" ∷ "bridge" ∷ []))) repository.network,
      entry index "network must be none or bridge",
    )
    ∷ (
      if_given (λ n. below n 1) repository.max_changed_files,
      entry index "max_changed_files must be positive",
    )
    ∷ (
      if_given (λ n. below n 1) repository.max_changed_lines,
      entry index "max_changed_lines must be positive",
    )
    ∷ (
      if_given (λ b. not (safe_git_ref (codes b))) repository.default_branch,
      entry index "default_branch is not a safe Git ref",
    )
    ∷ (
      draft && is_empty repository.allow_labels,
      entry index "needs maintainer-signal allow_labels for draft publication",
    )
    ∷ (
      any (λ v. one_of v ("NOASSERTION" ∷ "OTHER" ∷ [])) repository.allowed_licenses,
      entry index "allowed_licenses contains an unrecognized SPDX value",
    )
    ∷ (
      draft && is_empty repository.allowed_licenses,
      entry index "needs an explicit allowed_licenses list for draft publication",
    )
    ∷ (
      is_allowed repository.ai_contributions_allowed && not_https repository.ai_policy_url,
      entry index "requires an HTTPS ai_policy_url when AI is allowed",
    )
    ∷ (
      is_allowed repository.ai_contributions_allowed && is_missing repository.ai_policy_checked_at,
      entry index "requires ai_policy_checked_at when AI is allowed",
    )
    ∷ []

-- `for index, repository in enumerate(config.repositories)`, from an index on.
abbrev pub check_repositories :
    {Float : Type 0} → Bool → ℕ → List (RepositoryConfig Float) → Result ConfigError Unit
check_repositories draft index [] = ok tt
check_repositories draft index (r ∷ rs) =
    raise_first (repository_tests draft index r) >> check_repositories draft (suc index) rs

module _ (platform : Platform) (floats : Floats) where
  abbrev pub scoring_tests : ScoringConfig floats.Float → Tests
  scoring_tests scoring =
      (
        outside 0 100 scoring.minimum_score,
        invalid "scoring.minimum_score must be between 0 and 100",
      )
      ∷ (
        any (float_outside floats 0 1) (weights scoring),
        invalid "scoring weights and penalties must be between 0 and 1",
      )
      ∷ []

  unfoldable pub validate : AppConfig floats.Float → Result ConfigError Unit
  validate config =
      raise_first (github_tests config.github)
      >> (raise_first (budget_tests floats platform config.budget)
          >> (raise_first (discovery_tests config.discovery)
              >> (raise_first (sandbox_tests floats config.sandbox)
                  >> (raise_first (identity_tests config.agent)
                      >> (raise_first (codex_tests platform config.agent)
                          >> (raise_first (environment_tests config.agent)
                              >> (raise_first (limit_tests config.agent)
                                  >> (raise_first
                                        (credential_tests config.github.token_env config.agent)
                                      >> (raise_first (
                                            mode_tests config.publication config.agent.backend
                                              config.sandbox.image)
                                          >> (raise_first (account_tests config.publication)
                                              >> (raise_first (
                                                    invariant_tests config.policy
                                                      config.publication)
                                                  >> (raise_first (scoring_tests config.scoring)
                                                      >> (raise_first (change_tests config.policy)
                                                          >> check_repositories
                                                            (is_draft config.publication) 0
                                                            config.repositories)))))))))))))
