-- ===== src/Config/Validate/Agent.antt =====
-- `_validate` of src/leftovers/config.py: the coding agent.
use leftovers.Base.{
  ltb, ◌==◌, length, any, keep, is_empty, String, Bool, not, ◌&&◌, ◌||◌, List, [], ◌∷◌,
}
use leftovers.Base.Int.{ltb_ℤ}
use leftovers.Base.Text.{str_eq, one_of, codes, str_len}
use leftovers.Config.{AgentConfig}
use leftovers.Config.Ref.{starts, is_control}
use leftovers.Config.Validate.{
  invalid, agent_identifier, exposed_credentials, Tests, below, above, is_space_only,
  argv_too_large,
}
use leftovers.Text.Platform.{Platform}
use leftovers.Text.Patterns.{environment_name}

abbrev pub bad_identifier : String → Bool
bad_identifier value =
    is_space_only value || ltb 128 (str_len value) || any is_control (codes value)

-- `command[0]` of a command that is not empty; the test before has refused the empty one.
abbrev pub executable : List String → String
executable [] = ""
executable (x ∷ xs) = x

-- The tests inside `if config.agent.backend == "codex-cli"`.
abbrev pub codex_tests : Platform → AgentConfig → Tests
codex_tests platform agent =
    let codex = str_eq agent.backend "codex-cli" in
    let name = platform.casefold (platform.path_name (executable agent.command)) in
    (
      codex && (not (length agent.command == 1) || not (one_of name ("codex" ∷ "codex.exe" ∷ []))),
      invalid "codex-cli backend command must contain only the Codex executable path",
    )
    ∷ (
      codex && not (str_eq agent.provider "openai-codex-cli"),
      invalid "codex-cli backend provider must be openai-codex-cli",
    )
    ∷ (
      codex && str_eq agent.model "unconfigured",
      invalid "codex-cli backend requires an explicit model",
    )
    ∷ (
      codex && (not agent.checkin_required || not agent.usage_reporting_required),
      invalid "codex-cli backend requires check-in and usage reporting",
    )
    ∷ (
      codex && not (is_empty agent.pass_environment),
      invalid "codex-cli backend does not accept pass_environment entries",
    )
    ∷ []

abbrev pub limit_tests : AgentConfig → Tests
limit_tests agent =
    (
      below agent.timeout_seconds 1
          || below agent.max_output_bytes 1
          || below agent.estimated_tokens_p50 1
          || ltb_ℤ agent.estimated_tokens_p95 agent.estimated_tokens_p50
          || below agent.max_repair_cycles 0
          || below agent.checkin_timeout_seconds 1
          || ltb_ℤ agent.heartbeat_timeout_seconds agent.checkin_timeout_seconds,
      invalid "agent limits and token estimates are invalid",
    )
    ∷ (
      above agent.timeout_seconds 14400
          || above agent.max_output_bytes 1000000
          || above agent.estimated_tokens_p95 10000000
          || above agent.max_repair_cycles 3
          || above agent.checkin_timeout_seconds 3600
          || above agent.heartbeat_timeout_seconds 7200,
      invalid "agent limits exceed conservative upper bounds",
    )
    ∷ []

abbrev pub forbidden_env : String → List String
forbidden_env token_env =
    "GITHUB_TOKEN" ∷ "GH_TOKEN" ∷ "GITHUB_PAT" ∷ "SSH_AUTH_SOCK" ∷ token_env ∷ []

abbrev pub control_prefixes : List String
control_prefixes = "DOCKER_" ∷ "CONTAINER_" ∷ "PODMAN_" ∷ "KUBE" ∷ []

abbrev pub is_exposed : String → String → Bool
is_exposed token_env name =
    one_of name (forbidden_env token_env)
    || any (λ prefix. starts (codes name) (codes prefix)) control_prefixes

-- The exposed names in the order of the configuration, where the source sorts a set of them.
abbrev pub exposed : String → List String → List String
exposed token_env names = keep (is_exposed token_env) names

abbrev pub identity_tests : AgentConfig → Tests
identity_tests agent =
    (
      not (one_of agent.backend ("container" ∷ "host" ∷ "codex-cli" ∷ [])),
      invalid "agent.backend must be container, host, or codex-cli",
    )
    ∷ (is_empty agent.command, invalid "agent.command must be a non-empty argv array")
    ∷ (
      is_space_only (executable agent.command),
      invalid "agent.command executable may not be empty",
    )
    ∷ (bad_identifier agent.provider, agent_identifier "provider")
    ∷ (bad_identifier agent.model, agent_identifier "model")
    ∷ (argv_too_large agent.command, invalid "agent.command exceeds the argv safety limits")
    ∷ []

abbrev pub environment_tests : AgentConfig → Tests
environment_tests agent =
    (
      any (λ name. not (environment_name (codes name))) agent.pass_environment,
      invalid "agent.pass_environment contains an invalid variable name",
    )
    ∷ []

abbrev pub credential_tests : String → AgentConfig → Tests
credential_tests token_env agent =
    let names = exposed token_env agent.pass_environment in
    (not (is_empty names), exposed_credentials names) ∷ []
