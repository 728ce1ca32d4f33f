-- ===== src/Policy/Candidate.antt =====
-- `candidate_gate` of src/leftovers/policy.py: the eligibility of an issue.
pub mod Laws
pub mod Eligible
use leftovers.Base.{
  ltb, if◌then◌else◌, keep, is_empty, when, reports, ℕ, ◌+◌, String, Bool, true, false, not, ◌&&◌,
  ◌||◌, Option, none, some, List, [], ◌∷◌, ◌++◌, map,
}
use leftovers.Base.Int.{ℤ, pos, ◌-ℤ◌, ltb_ℤ}
use leftovers.Base.Text.{str_eq, one_of, codes}
use leftovers.Models.{IssueCandidate, ScoreBreakdown}
use leftovers.Config.{PolicyConfig, RepositoryConfig}
use leftovers.Text.Platform.{Platform}
use leftovers.Text.Patterns.{has_sensitive_scope, is_sensitive_label}
use leftovers.Config.Ref.{starts}

-- The messages, with the facts that they show. (The lists of labels are sorted there.)
pub data GateFailure : Type 0 where
  not_open repository_closed forking_denied pulls_denied creation_restricted : GateFailure
  no_license : GateFailure
  license_denied : Option String → GateFailure
  locked assigned open_linked_pr recent_claim : GateFailure
  denied_labels sensitive_labels : List String → GateFailure
  sensitive_scope no_allowed_label no_test_command ai_not_allowed : GateFailure
  ai_date_invalid ai_date_stale ai_url_invalid : GateFailure
  below_minimum : ℤ → ℤ → GateFailure

-- `value is True`.
abbrev pub is_true : Option Bool → Bool
is_true (some true) = true
is_true _ = false

-- `value in {None, "", ...}` and `value not in (...)`.
abbrev pub unrecognised : Option String → Bool
unrecognised none = true
unrecognised (some spdx) = one_of spdx ("" ∷ "NOASSERTION" ∷ "OTHER" ∷ [])

abbrev pub is_listed : Option String → List String → Bool
is_listed none licenses = false
is_listed (some spdx) licenses = one_of spdx licenses

-- `value == text`, where the value may be `None`.
abbrev pub equals : Option String → String → Bool
equals none text = false
equals (some s) text = str_eq s text

abbrev or_blank_text : Option String → String
or_blank_text none = ""
or_blank_text (some s) = s

-- `not url or not url.startswith("https://")`.
abbrev pub is_https : Option String → Bool
is_https none = false
is_https (some url) = starts (codes url) (codes "https://")

-- `checked_at < oldest or checked_at > today + timedelta(days=1)`, in days.
abbrev pub out_of_date : ℕ → ℤ → ℕ → Bool
out_of_date today max_age checked =
    ltb_ℤ (pos checked) (pos today -ℤ max_age) || ltb (today + 1) checked

date_failures : ℕ → ℤ → Option ℕ → List GateFailure
date_failures today max_age none = ai_date_invalid ∷ []
date_failures today max_age (some checked) = when (out_of_date today max_age checked) ai_date_stale

module _ (platform : Platform) where
  open platform use {casefold, date_from_iso, is_word, is_decimal}

  abbrev pub folded : List String → List String
  folded labels = map casefold labels

  -- `labels.intersection(denied)`.
  abbrev pub common : List String → List String → List String
  common labels denied = keep (λ label. one_of label denied) labels

  abbrev pub issue_text : IssueCandidate → List ℕ
  issue_text issue = codes issue.title ++ b'\n' ∷ codes issue.body

  abbrev pub found_sensitive : IssueCandidate → List String
  found_sensitive issue = keep (λ label. is_sensitive_label (codes label)) issue.labels

  module _ {Float : Type 0} where
    ai_failures : ℕ → PolicyConfig → RepositoryConfig Float → List GateFailure
    unfolding date_failures
    ai_failures today policy repository =
        if not (is_true repository.ai_contributions_allowed)
        then ai_not_allowed ∷ []
        else date_failures today policy.ai_policy_max_age_days
            (date_from_iso (or_blank_text repository.ai_policy_checked_at))
          ++ when (not (is_https repository.ai_policy_url)) ai_url_invalid

    -- The gates on what GitHub says of the repository and the issue.
    abbrev pub state_tests :
        IssueCandidate → RepositoryConfig Float → PolicyConfig → List (Bool × GateFailure)
    state_tests issue repository policy =
        (not (str_eq issue.state "open"), not_open)
        ∷ (issue.repo.archived || issue.repo.disabled, repository_closed)
        ∷ (not (is_true issue.repo.forking_allowed), forking_denied)
        ∷ (not (is_true issue.repo.pull_requests_enabled), pulls_denied)
        ∷ (not (equals issue.repo.pull_request_creation_policy "ALL"), creation_restricted)
        ∷ (policy.require_license && unrecognised issue.repo.license_spdx, no_license)
        ∷ (
          not (is_empty repository.allowed_licenses)
              && not (is_listed issue.repo.license_spdx repository.allowed_licenses),
          license_denied issue.repo.license_spdx,
        )
        ∷ (issue.locked, locked)
        ∷ (policy.require_unassigned && not (is_empty issue.assignees), assigned)
        ∷ (policy.require_no_open_linked_pr && issue.has_open_linked_pr, open_linked_pr)
        ∷ (issue.has_recent_claim, recent_claim)
        ∷ []

    abbrev pub blocked_labels : IssueCandidate → RepositoryConfig Float → PolicyConfig → List String
    blocked_labels issue repository policy =
        common (folded issue.labels) (folded (policy.deny_labels ++ repository.deny_labels))

    -- The gates on labels and text, and on the commands that verify a patch.
    abbrev pub scope_tests :
        IssueCandidate → RepositoryConfig Float → PolicyConfig → List (Bool × GateFailure)
    scope_tests issue repository policy =
        (
          not (is_empty (blocked_labels issue repository policy)),
          denied_labels (blocked_labels issue repository policy),
        )
        ∷ (not (is_empty (found_sensitive issue)), sensitive_labels (found_sensitive issue))
        ∷ (has_sensitive_scope is_word is_decimal (issue_text issue), sensitive_scope)
        ∷ (
          not (is_empty (folded repository.allow_labels))
              && is_empty (common (folded issue.labels) (folded repository.allow_labels)),
          no_allowed_label,
        )
        ∷ (is_empty repository.test_commands, no_test_command)
        ∷ []

    -- `datetime.now(UTC).date()` is the argument `today`.
    unfoldable pub candidate_gate :
        ℕ
        → IssueCandidate
        → ScoreBreakdown Float
        → RepositoryConfig Float
        → PolicyConfig
        → ℤ
        → List GateFailure
    unfolding ai_failures
    candidate_gate today issue score repository policy minimum_score =
        reports (state_tests issue repository policy)
        ++ reports (scope_tests issue repository policy)
        ++ ai_failures today policy repository
        ++ reports ((ltb_ℤ score.total minimum_score, below_minimum score.total minimum_score) ∷ [])
