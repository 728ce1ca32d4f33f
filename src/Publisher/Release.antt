-- ===== src/Publisher/Release.antt =====
-- `publish` of src/leftovers/publisher.py.
pub mod Early
pub mod Laws
use leftovers.Base.{
  if◌then◌else◌, length, keep, is_empty, ℕ, String, Bool, not, ◌&&◌, Option, none, some, List, [],
  ◌∷◌, ◌++◌,
}
use leftovers.Base.Int.{ℤ, pos, leb_ℤ}
use leftovers.Base.Text.{str_eq, codes, join_texts}
use leftovers.Config.{PublicationConfig}
use leftovers.Models.Payload.{Json, arr, Items, nil, cons, get}
use leftovers.Policy.Diff.{DiffInspection}
use leftovers.Orchestrator.Repair.{same_diff}
use leftovers.Publisher.Title.{safe_title}
use leftovers.Publisher.Approval.{assert_authorized}
use leftovers.Publisher.Reconcile.{validate_open_pr_preflight, Expected, shows, reconciled_pr_url}
use leftovers.Publisher.Exec.{Step, lift, pure, ◌>>=◌, ◌>>◌, call, refuse_if}
use leftovers.Publisher.Tools.{
  PublishResult, required, owner_login, or_blank, is_user, patch_limit, Publication,
}
use leftovers.Publisher.Checks.{refuse_unsafe, validate_approval}
use leftovers.Publisher.Remote.{ensure_fork, ensure_branch}
use leftovers.Publisher.Opening.{find_or_open}

-- The open pull requests that are this branch's, of this account.
abbrev pub is_matching : String → String → Json → Bool
is_matching login branch item =
    shows branch (get "headRefName" item)
    && shows login (owner_login (get "headRepositoryOwner" item))

abbrev pub items_of_list : List Json → Items
items_of_list [] = nil
items_of_list (x ∷ xs) = cons x (items_of_list xs)

module _ {W : Type 0} (job : Publication W) where
  abbrev pub is_publisher : PublicationConfig → String → ℤ → Bool
  is_publisher config login user_id =
      str_eq (job.tools.casefold login) (job.tools.casefold (or_blank config.expected_login))
      && is_user config.expected_user_id user_id

  unfoldable pub commit_patch : DiffInspection → String → ℤ → Step W String
  commit_patch diff login user_id = do
    refuse_unsafe job
    call job.tools.add_all
    message ← lift (
        safe_title 200 (
          codes "Fix #"
          ++ codes (job.tools.show job.issue.number)
          ++ codes ": "
          ++ codes job.issue.title))
    call (job.tools.commit login user_id message)
    commit_sha ← call job.tools.rev_parse
    committed ←
        call (job.tools.inspect_committed job.approval.base_sha (patch_limit job.tools diff))
    refuse_if (not (same_diff committed diff)) "committed tree does not match the approved patch"
    left ← call job.tools.inspect_diff
    refuse_if (not (is_empty left.files))
        "workspace has uncommitted changes after publication commit"
    pure commit_sha

  -- The preflight: an open pull request of the branch is taken, and the account has room for one more.
  unfoldable pub preflight : PublicationConfig → Expected → String → String → Step W (Option String)
  preflight config expected login branch = do
    reply ← call (job.tools.open_prs login)
    answer ← required reply "could not parse open-PR preflight response"
    items ← lift (validate_open_pr_preflight answer job.issue.repo.slug)
    let matching = keep (is_matching login branch) items
    let taken = (do
      url ← lift (reconciled_pr_url expected (arr (items_of_list matching)))
      pure url)
    let room = (do
      refuse_if (leb_ℤ config.max_open_prs_per_repository (pos (length items)))
          "contributor account reached the per-repository open-PR cap"
      pure none)
    if is_empty matching then room else taken

  abbrev pub branch_of : PublicationConfig → String
  branch_of config =
      join_texts config.branch_prefix (join_texts "/issue-" (job.tools.show job.issue.number))

  -- What follows the preflight: the fork, the branch and the pull request.
  unfoldable pub release : Expected → String → String → String → ℕ → Step W String
  unfolding ensure_fork ensure_branch find_or_open
  release expected login branch commit_sha max_patch_bytes = do
    ensure_fork job login commit_sha max_patch_bytes
    ensure_branch job login branch commit_sha max_patch_bytes
    find_or_open job expected login branch commit_sha max_patch_bytes

  abbrev pub expected_of : String → List ℕ → String → Expected
  expected_of commit_sha title body = record {
    repository = job.issue.repo.slug;
    head_sha = commit_sha;
    base_branch = job.base_branch;
    title = title;
    body = body;
  }

  -- The `finally`, which removes two local files, is left out.
  unfoldable pub publish :
      PublicationConfig → Bool → DiffInspection → List ℕ → String → Step W PublishResult
  unfolding validate_approval commit_patch preflight release
  publish config publish_flag diff title body = do
    lift (assert_authorized config publish_flag)
    validate_approval job
    (login, user_id) ← call job.tools.identity
    refuse_if (not (is_publisher config login user_id))
        "authenticated GitHub identity does not match the configured publisher identity"
    pr_title ← lift (safe_title 240 title)
    commit_sha ← commit_patch diff login user_id
    let expected = expected_of commit_sha pr_title body
    taken ← preflight config expected login (branch_of config)
    url ← elim taken [
      | some url ↦ pure url
      | none ↦ release expected login (branch_of config) commit_sha (patch_limit job.tools diff)
    ]
    pure record { branch = branch_of config; commit_sha = commit_sha; pr_url = url }
