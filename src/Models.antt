-- ===== src/Models.antt =====
-- src/leftovers/models.py: the values that the controller's parts exchange. A Python float is a
-- value of the type `Float`, which the development never looks into; an aware datetime is its
-- instant in microseconds; a payload of an agent is a `Json` value.
pub mod Payload
pub mod Stages
use leftovers.Base.{ℕ, String, Bool, not, ◌&&◌, Option, List}
use leftovers.Base.Int.{ℤ, pos, eqb_ℤ}
use leftovers.Models.Payload.{Json}
use leftovers.Models.Stages.{RunStage, FailureCode}

-- An aware `datetime`, in microseconds.
abbrev pub Instant : Type 0
Instant = ℕ

abbrev pub second : ℕ
second = 1000000

pub record RepositoryMetadata : Type 0 where
  pub slug : String
  pub stars : ℤ
  pub archived : Bool
  pub disabled : Bool
  pub license_spdx : Option String
  pub default_branch : String
  pub pushed_at : Option Instant
  pub open_issues : ℤ
  pub forking_allowed : Option Bool
  pub pull_requests_enabled : Option Bool
  pub pull_request_creation_policy : Option String

pub record IssueCandidate : Type 0 where
  pub repo : RepositoryMetadata
  pub number : ℤ
  pub node_id : String
  pub title : String
  pub body : String
  pub url : String
  pub labels : List String
  pub created_at : Instant
  pub updated_at : Instant
  pub comments : ℤ
  pub reactions : ℤ
  pub assignees : List String
  pub locked : Bool
  pub author_association : String
  pub has_open_linked_pr : Bool
  pub has_recent_claim : Bool
  pub state : String

-- What `f"{slug}#{number}"` shows: GitHub's slugs hold no `#`, so the two parts determine it.
pub record IssueRef : Type 0 where
  pub slug : String
  pub number : ℤ

abbrev pub ref : IssueCandidate → IssueRef
ref issue = record { slug = issue.repo.slug; number = issue.number }

pub record ScoreBreakdown (Float : Type 0) : Type 0 where
  pub repository_impact : Float
  pub urgency : Float
  pub user_demand : Float
  pub maintainer_signal : Float
  pub tractability : Float
  pub neglect : Float
  pub technical_risk : Float
  pub collision_risk : Float
  pub scope_uncertainty : Float
  pub total : ℤ
  pub reasons : List String

pub record BudgetSnapshot : Type 0 where
  pub source : String
  pub remaining_tokens : Option ℤ
  pub reserve_tokens : ℤ
  pub spendable_tokens : Option ℤ
  pub confidence : String
  pub observed_at : Instant
  pub resets_at : Option Instant
  pub maximum_tokens : Option ℤ

pub record CommandResult (Float : Type 0) : Type 0 where
  pub argv : List String
  pub exit_code : ℤ
  pub duration_seconds : Float
  pub stdout_tail : String
  pub stderr_tail : String
  pub timed_out : Bool

abbrev pub passed : {Float : Type 0} → CommandResult Float → Bool
passed result = eqb_ℤ result.exit_code (pos 0) && not result.timed_out

pub record TokenUsage : Type 0 where
  pub input_tokens : ℤ
  pub output_tokens : ℤ
  pub cached_input_tokens : ℤ
  pub reasoning_tokens : ℤ
  pub total_tokens : ℤ
  pub source : String
  pub exact : Bool
  pub reported_at : Instant

pub record AgentResult (Float : Type 0) : Type 0 where
  pub stage : String
  pub status : String
  pub payload : Json
  pub command : CommandResult Float
  pub usage : Option TokenUsage

-- `message` is the text of the outcome in the form in which the code composes it.
pub record RunOutcome (Float Message : Type 0) : Type 0 where
  pub run_id : String
  pub stage : RunStage
  pub issue_ref : Option IssueRef
  pub score : Option ℤ
  pub failure_code : Option FailureCode
  pub message : Message
  pub pr_url : Option String
  pub branch : Option String
  pub tests : List (CommandResult Float)
