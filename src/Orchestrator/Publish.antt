-- ===== src/Orchestrator/Publish.antt =====
-- The end of the `try` of `_run_cycle` in src/leftovers/orchestrator.py: the approval, the checks
-- that GitHub still shows what was verified, and the publication or the dry run.
use leftovers.Base.{
  ◌==◌, if◌then◌else◌, is_empty, Bool, true, not, ◌&&◌, Option, none, some, List, [],
}
use leftovers.Base.Text.{str_eq}
use leftovers.Models.{IssueCandidate}
use leftovers.Models.Stages.{approved, publishing, pr_open, complete, policy_denied, upstream_moved}
use leftovers.Policy.Candidate.{GateFailure, candidate_gate}
use leftovers.Text.Platform.{Platform}
use leftovers.Orchestrator.Exec.{
  fixed, gate, Raised, state_policy_error, slot, publish, Exec, raise, ◌>>=◌, ◌>>◌, attempt,
  raise_when, set_outcome, log, call, tell,
}
use leftovers.Orchestrator.Services.{transition, event, Services}
use leftovers.Orchestrator.Tasks.{Job, enter, append, aborted_with}
use leftovers.Orchestrator.Repair.{Verified, inspect, unchanged}

-- `fresh_issue is None or fresh_issue.updated_at != selected.issue.updated_at`.
abbrev pub has_moved : IssueCandidate → Option IssueCandidate → Bool
has_moved chosen none = true
has_moved chosen (some fresh) = not (fresh.updated_at == chosen.updated_at)

module _ {Float W : Type 0} (platform : Platform) (services : Services Float W)
    (job : Job Float) where
  abbrev pub fresh_failures : Option IssueCandidate → List GateFailure
  fresh_failures none = []
  fresh_failures (some fresh) =
      candidate_gate platform services.today fresh (services.score_issue fresh) job.repository
        job.config.policy job.config.scoring.minimum_score

  -- What must hold of GitHub right before the slot is reserved.
  unfoldable pub check_upstream : Exec Float W (Unit {0})
  check_upstream = do
    raise_when job.repository.require_human_approval (
        aborted_with policy_denied
          (fixed "repository policy requires a human approval not present in this unattended run"))
    raise_when (not services.is_github)
        (aborted_with policy_denied (fixed "fixture sources cannot publish"))
    fresh ← call (services.refresh_issue job.candidate.issue)
    raise_when (has_moved job.candidate.issue fresh)
        (aborted_with upstream_moved (fixed "issue changed or closed after selection"))
    raise_when (not (is_empty (fresh_failures fresh)))
        (aborted_with upstream_moved (gate (fresh_failures fresh)))
    tip ← call (services.branch_head job.repository.slug job.branch)
    raise_when (not (str_eq tip job.base_sha))
        (aborted_with upstream_moved (fixed "upstream base branch moved after verification"))

  -- `except StatePolicyError as exc: raise RunAbort(POLICY_DENIED, str(exc))`.
  abbrev pub denied : Raised → Raised
  denied (state_policy_error s) = aborted_with policy_denied (fixed s)
  denied e = e

  unfoldable pub reserve_slot : Exec Float W (Unit {0})
  reserve_slot = do
    log slot
    attempt
        (call (
          services.reserve_slot job.reservation.window_key job.repository.slug
            job.candidate.issue.number))
        λ e. raise (denied e)
    append services "publication_slot_reserved"

  unfoldable pub publish_patch : Verified Float → Exec Float W (Unit {0})
  publish_patch verified = do
    enter services publishing
    append services "state"
    log publish
    (url, branch_name) ← call (services.publish verified.diff job.branch)
    set_outcome (λ o. record o { pr_url = some url; branch = some branch_name })
    enter services pr_open
    tell (services.telemetry (event "publication" pr_open))
    set_outcome (λ o. record o { message = fixed "verified patch published as a draft PR" })
    call (services.finish_slot url)
    append services "published"

  unfoldable pub complete_dry_run : Exec Float W (Unit {0})
  complete_dry_run = do
    set_outcome (λ o. record o {
      stage = complete;
      message = fixed "verified dry run completed; no remote write was attempted";
    })
    append services "dry_run_complete"

  -- The patch is frozen if it is still what was reviewed.
  unfoldable pub approve : Verified Float → Exec Float W (Unit {0})
  unfolding unchanged
  approve verified = do
    append services "pr_copy"
    final ← inspect platform services job
    unchanged platform services job verified.diff final
        "workspace changed after independent verification"
    call (services.create_approval final job.base_sha verified.review)
    tell (services.telemetry (transition approved))
    tell (services.telemetry (event "approval" approved))
    append services "approved"

  unfoldable pub release : Bool → Verified Float → Exec Float W (Unit {0})
  unfolding check_upstream reserve_slot publish_patch complete_dry_run approve
  release publish_flag verified = do
    approve verified
    let published : Exec Float W (Unit {0}) = do
      check_upstream
      reserve_slot
      publish_patch verified
    if publish_flag && str_eq job.config.publication.mode "draft-pr"
        then published
        else complete_dry_run
