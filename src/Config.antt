-- ===== src/Config.antt =====
-- src/leftovers/config.py: the configuration's records. Their validation is in the modules below.
-- Every integer of a TOML file is a signed one; `Float` is the type of Python's floats.
pub mod Floats
pub mod Mandatory
pub mod Ref
pub mod Validate
use leftovers.Base.{String, Bool, Option, List}
use leftovers.Base.Int.{ℤ}

pub record GitHubConfig : Type 0 where
  pub api_url : String
  pub token_env : String
  pub api_version : String
  pub request_timeout_seconds : ℤ
  pub max_read_requests_per_run : ℤ

pub record BudgetConfig (Float : Type 0) : Type 0 where
  pub source : String
  pub remaining_tokens_env : String
  pub fixed_remaining_tokens : Option ℤ
  pub maximum_tokens : Option ℤ
  pub reserve_tokens : ℤ
  pub minimum_spendable_tokens : ℤ
  pub safety_multiplier : Float
  pub window : String
  pub timezone : String
  pub reset_hour : ℤ
  pub reset_weekday : ℤ
  pub max_run_seconds : ℤ
  pub reset_safety_seconds : ℤ

pub record DiscoveryConfig : Type 0 where
  pub query : String
  pub per_repo_limit : ℤ
  pub max_candidates : ℤ

pub record ScoringConfig (Float : Type 0) : Type 0 where
  pub minimum_score : ℤ
  pub repository_impact_weight : Float
  pub urgency_weight : Float
  pub user_demand_weight : Float
  pub maintainer_signal_weight : Float
  pub tractability_weight : Float
  pub neglect_weight : Float
  pub technical_risk_penalty : Float
  pub collision_risk_penalty : Float
  pub scope_uncertainty_penalty : Float

pub record PolicyConfig : Type 0 where
  pub require_unassigned : Bool
  pub require_no_open_linked_pr : Bool
  pub require_license : Bool
  pub max_changed_files : ℤ
  pub max_changed_lines : ℤ
  pub max_patch_bytes : ℤ
  pub ai_policy_max_age_days : ℤ
  pub deny_labels : List String
  pub forbid_paths : List String
  pub forbid_dependency_changes : Bool

pub record SandboxConfig (Float : Type 0) : Type 0 where
  pub runtime : String
  pub image : String
  pub network : String
  pub memory : String
  pub cpus : Float
  pub pids_limit : ℤ
  pub timeout_seconds : ℤ
  pub tmpfs_size : String

pub record AgentConfig : Type 0 where
  pub backend : String
  pub command : List String
  pub provider : String
  pub model : String
  pub checkin_required : Bool
  pub usage_reporting_required : Bool
  pub checkin_timeout_seconds : ℤ
  pub heartbeat_timeout_seconds : ℤ
  pub timeout_seconds : ℤ
  pub max_output_bytes : ℤ
  pub estimated_tokens_p50 : ℤ
  pub estimated_tokens_p95 : ℤ
  pub max_repair_cycles : ℤ
  pub pass_environment : List String

pub record PublicationConfig : Type 0 where
  pub mode : String
  pub external_writes_acknowledged : Bool
  pub require_cli_flag : Bool
  pub draft : Bool
  pub fork : Bool
  pub branch_prefix : String
  pub disclose_ai_assistance : Bool
  pub max_prs_per_window : ℤ
  pub max_open_prs_per_repository : ℤ
  pub repository_cooldown_days : ℤ
  pub expected_login : Option String
  pub expected_user_id : Option ℤ

pub record RepositoryConfig (Float : Type 0) : Type 0 where
  pub slug : String
  pub enabled : Bool
  pub importance : Float
  pub default_branch : Option String
  pub allowed_licenses : List String
  pub allow_labels : List String
  pub deny_labels : List String
  pub test_commands : List (List String)
  pub setup_commands : List (List String)
  pub forbid_paths : List String
  pub max_changed_files : Option ℤ
  pub max_changed_lines : Option ℤ
  pub network : Option String
  pub require_human_approval : Bool
  pub ai_contributions_allowed : Option Bool
  pub ai_policy_url : Option String
  pub ai_policy_checked_at : Option String

pub record AppConfig (Float : Type 0) : Type 0 where
  pub version : ℤ
  pub state_dir : String
  pub temp_root : String
  pub github : GitHubConfig
  pub budget : BudgetConfig Float
  pub discovery : DiscoveryConfig
  pub scoring : ScoringConfig Float
  pub policy : PolicyConfig
  pub sandbox : SandboxConfig Float
  pub agent : AgentConfig
  pub publication : PublicationConfig
  pub repositories : List (RepositoryConfig Float)
