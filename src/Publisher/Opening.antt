-- ===== src/Publisher/Opening.antt =====
-- How `publish` of src/leftovers/publisher.py finds or opens the pull request, and `_verify_created_pr`.
pub mod Shown
pub mod Laws
use leftovers.Base.{
  if◌then◌else◌, ℕ, String, ◌⊎◌, inl, inr, true, false, not, none, some, List, [], ◌∷◌,
}
use leftovers.Base.Text.{codes, is_blank}
use leftovers.Models.Payload.{text, arr, nil, cons}
use leftovers.Publisher.{PublishError}
use leftovers.Publisher.Reconcile.{after, is_expected_pr_url, Expected, shows, reconciled_pr_url}
use leftovers.Publisher.Exec.{opened, Step, lift, pure, ◌>>=◌, ◌>>◌, attempt, call, refuse_if}
use leftovers.Base.Result.{err}
use leftovers.Publisher.Tools.{required, text_option, given, Publication}
use leftovers.Publisher.Checks.{validate_committed_approval, write}

-- The first line of the output that starts with `https://`, or "".
abbrev pub first_url : List String → String
first_url [] = ""
first_url (line ∷ lines) =
    let rest = first_url lines in
    elim (after (codes "https://") (codes line)) [ none ↦ rest | some s ↦ line ]

module _ {W : Type 0} (job : Publication W) where
  -- `_verify_created_pr`.
  unfoldable pub verify_created_pr : Expected → String → Step W String
  verify_created_pr expected pr_url = do
    reply ← call (job.tools.view_pr pr_url)
    item ← required reply "could not parse created PR verification"
    verified ← lift (reconciled_pr_url expected (arr (cons item nil)))
    refuse_if (not (shows pr_url (text_option verified)))
        "created PR verification returned a different URL"
    pure pr_url

  -- After a creation that failed: the pull request may have been opened all the same.
  unfoldable pub recover : Expected → String → String → PublishError → Step W String
  recover expected login branch create_error = do
    reply ← call (job.tools.branch_prs login branch false)
    let listed = if reply.succeeded then reply.output else some (arr nil)
    url ← lift (elim listed [
      | none ↦ err create_error
      | some answer ↦ given create_error (reconciled_pr_url expected answer)
    ])
    pure url

  -- The lines of a creation that succeeded, or the URL that was found after one that failed.
  unfoldable pub create_or_recover :
      Expected → String → String → String → ℕ → Step W (List String ⊎ String)
  unfolding validate_committed_approval recover
  create_or_recover expected login branch commit_sha max_patch_bytes =
      attempt
        (do
          lines ←
              write job commit_sha max_patch_bytes opened
                (job.tools.create_pr login branch expected.title)
          pure (inl lines))
        (λ e. do url ← recover expected login branch e; pure (inr url))

  abbrev pub settle_created : Expected → List String ⊎ String → Step W String
  settle_created expected (inr url) = pure url
  settle_created expected (inl lines) = do
    refuse_if (is_blank (first_url lines)) "gh did not return the new PR URL"
    refuse_if (not (is_expected_pr_url (some (text (first_url lines))) expected.repository))
        "gh returned a PR URL outside the approved repository"
    verify_created_pr expected (first_url lines)

  unfoldable pub open_pr : Expected → String → String → String → ℕ → Step W String
  unfolding create_or_recover verify_created_pr
  open_pr expected login branch commit_sha max_patch_bytes = do
    call (job.tools.write_body expected.body)
    created ← create_or_recover expected login branch commit_sha max_patch_bytes
    settle_created expected created

  -- The pull request of the branch, if it is open already, or a new one.
  unfoldable pub find_or_open : Expected → String → String → String → ℕ → Step W String
  unfolding open_pr
  find_or_open expected login branch commit_sha max_patch_bytes = do
    reply ← call (job.tools.branch_prs login branch true)
    answer ← required reply.output "could not parse PR reconciliation response"
    found ← lift (reconciled_pr_url expected answer)
    elim found [
      | some url ↦ pure url
      | none ↦ open_pr expected login branch commit_sha max_patch_bytes
    ]
