-- ===== src/Tests/Samples.antt =====
-- Sample configurations, zones and tables for the witnesses.
use leftovers.Base.{
  ltb, leb, ℕ, zero, suc, ◌*◌, String, ◌≡◌, true, false, ◌&&◌, none, some, [], ◌∷◌, arith,
}
use leftovers.Base.Int.{pos, pos_part, ◌≤ℤ◌}
use leftovers.Config.{
  GitHubConfig, BudgetConfig, PolicyConfig, AgentConfig, PublicationConfig, RepositoryConfig,
  AppConfig,
}
use leftovers.Config.Floats.{Floats}
use leftovers.Text.Platform.{Platform}
use leftovers.Budget.Zone.{Zone}

pub grow : (n x : ℕ) → leb 1 x ≡ true → pos n ≤ℤ pos (n * x)
grow n zero h = cc
grow n (suc x) h = omega arith

-- Floats that are whole numbers.
abbrev pub whole_floats : Floats
whole_floats = record {
  Float = ℕ;
  of_int = λ n. pos_part n;
  is_finite = λ x. true;
  le = leb;
  lt = ltb;
  ceil_mul = λ n x. pos (pos_part n * x);
  ceil_mul-le = λ n x small finite one. grow n x one;
}

abbrev pub utc : String → Zone
utc name = record { to_wall = λ i. i; to_instant = λ w. w }

abbrev pub plain : Platform
plain = record {
  casefold = λ s. s;
  is_word = λ c. leb b'a' c && leb c b'z';
  is_decimal = λ c. leb b'0' c && leb c b'9';
  date_from_iso = λ s. some 100;
  path_name = λ s. s;
  has_zone = λ s. true;
}

abbrev pub github : GitHubConfig
github = record {
  api_url = "https://api.github.com";
  token_env = "LEFTOVERS_TOKEN";
  api_version = "2022-11-28";
  request_timeout_seconds = pos 20;
  max_read_requests_per_run = pos 200;
}

abbrev pub budget : BudgetConfig ℕ
budget = record {
  source = "fixed";
  remaining_tokens_env = "LEFTOVERS_REMAINING";
  fixed_remaining_tokens = some (pos 100000);
  maximum_tokens = none;
  reserve_tokens = pos 10000;
  minimum_spendable_tokens = pos 5000;
  safety_multiplier = 2;
  window = "daily";
  timezone = "UTC";
  reset_hour = pos 0;
  reset_weekday = pos 0;
  max_run_seconds = pos 3600;
  reset_safety_seconds = pos 60;
}

abbrev pub policy : PolicyConfig
policy = record {
  require_unassigned = true;
  require_no_open_linked_pr = true;
  require_license = true;
  max_changed_files = pos 5;
  max_changed_lines = pos 200;
  max_patch_bytes = pos 10000;
  ai_policy_max_age_days = pos 90;
  deny_labels = [];
  forbid_paths = [];
  forbid_dependency_changes = true;
}

abbrev pub agent : AgentConfig
agent = record {
  backend = "container";
  command = "agent" ∷ [];
  provider = "provider";
  model = "model";
  checkin_required = true;
  usage_reporting_required = true;
  checkin_timeout_seconds = pos 60;
  heartbeat_timeout_seconds = pos 120;
  timeout_seconds = pos 600;
  max_output_bytes = pos 1000;
  estimated_tokens_p50 = pos 1000;
  estimated_tokens_p95 = pos 5000;
  max_repair_cycles = pos 1;
  pass_environment = "LANG" ∷ [];
}

abbrev pub publication : PublicationConfig
publication = record {
  mode = "draft-pr";
  external_writes_acknowledged = true;
  require_cli_flag = true;
  draft = true;
  fork = true;
  branch_prefix = "leftovers";
  disclose_ai_assistance = true;
  max_prs_per_window = pos 1;
  max_open_prs_per_repository = pos 1;
  repository_cooldown_days = pos 7;
  expected_login = some "octocat";
  expected_user_id = some (pos 1);
}

abbrev pub repository : RepositoryConfig ℕ
repository = record {
  slug = "o/r";
  enabled = true;
  importance = 1;
  default_branch = none;
  allowed_licenses = "MIT" ∷ [];
  allow_labels = "help" ∷ [];
  deny_labels = [];
  test_commands = ("test" ∷ []) ∷ [];
  setup_commands = [];
  forbid_paths = [];
  max_changed_files = none;
  max_changed_lines = none;
  network = none;
  require_human_approval = false;
  ai_contributions_allowed = some true;
  ai_policy_url = some "https://o/r";
  ai_policy_checked_at = some "2026-01-01";
}

abbrev pub config : AppConfig ℕ
config = record {
  version = pos 1;
  state_dir = "/state";
  temp_root = "/tmp";
  github = github;
  budget = budget;
  discovery = record { query = "is:open"; per_repo_limit = pos 10; max_candidates = pos 10 };
  scoring = record {
    minimum_score = pos 50;
    repository_impact_weight = 1;
    urgency_weight = 0;
    user_demand_weight = 0;
    maintainer_signal_weight = 0;
    tractability_weight = 0;
    neglect_weight = 0;
    technical_risk_penalty = 0;
    collision_risk_penalty = 0;
    scope_uncertainty_penalty = 0;
  };
  policy = policy;
  sandbox = record {
    runtime = "docker";
    image = "img@sha256:0123456789abcdef0123456789abcdef0123456789abcdef0123456789abcdef";
    network = "none";
    memory = "1g";
    cpus = 1;
    pids_limit = pos 100;
    timeout_seconds = pos 600;
    tmpfs_size = "1g";
  };
  agent = agent;
  publication = publication;
  repositories = repository ∷ [];
}
