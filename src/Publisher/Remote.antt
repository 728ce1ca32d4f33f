-- ===== src/Publisher/Remote.antt =====
-- `_ensure_fork` and the push of `publish` in src/leftovers/publisher.py.
pub mod Laws
use leftovers.Base.{if◌then◌else◌, ℕ, zero, suc, String, Bool, false, not, ◌&&◌, Option, none, some}
use leftovers.Models.Payload.{Json, get}
use leftovers.Publisher.Reconcile.{is_expected_fork, shows}
use leftovers.Publisher.Exec.{
  forked, pushed, Step, lift, pure, ◌>>=◌, ◌>>◌, attempt, call, refuse, refuse_if,
}
use leftovers.Base.Result.{err}
use leftovers.Publisher.Tools.{Reply, required, Publication}
use leftovers.Publisher.Checks.{validate_committed_approval, write}

-- `data["commit"]["sha"]`.
abbrev pub branch_sha : Option Json → Option Json
branch_sha none = none
branch_sha (some item) = elim (get "commit" item) [ none ↦ none | some found ↦ get "sha" found ]

-- After a push that failed: what the branch then points at.
abbrev pub pushed_sha : Reply → Option Json
pushed_sha reply = if reply.succeeded then branch_sha reply.output else none

module _ {W : Type 0} (job : Publication W) where
  abbrev pub fork_ready : Reply → Bool
  fork_ready reply = elim reply.output [
    | none ↦ false
    | some item ↦ reply.succeeded && is_expected_fork job.tools.is_zero item job.issue.repo.slug
  ]

  -- `for _ in range(15)`: the fork is asked for again, with a pause after each answer.
  unfoldable pub await_fork : String → ℕ → Step W (Unit {0})
  await_fork login zero = refuse "fork was not ready after 30 seconds"
  await_fork login (suc tries) = do
    ready ← call (job.tools.view_fork login)
    let again = (do call job.tools.sleep; await_fork login tries)
    if fork_ready ready then pure tt else again

  unfoldable pub ensure_fork : String → String → ℕ → Step W (Unit {0})
  unfolding await_fork validate_committed_approval
  ensure_fork login commit_sha max_patch_bytes = do
    existing ← call (job.tools.view_fork login)
    let found = (do
      item ← required existing.output "could not parse existing fork metadata"
      refuse_if (not (is_expected_fork job.tools.is_zero item job.issue.repo.slug))
          "the repository of that name exists but is not a fork of the upstream")
    let missing = (do
      refuse_if (not existing.not_found) "could not reconcile contributor fork"
      write job commit_sha max_patch_bytes forked job.tools.create_fork
      await_fork login 15)
    if existing.succeeded then found else missing

  unfoldable pub push_branch : String → String → String → ℕ → Step W (Unit {0})
  unfolding validate_committed_approval
  push_branch login branch commit_sha max_patch_bytes = do
    call job.tools.authenticate
    attempt (write job commit_sha max_patch_bytes pushed (job.tools.push login branch))
        λ push_error. do
          reply ← call (job.tools.view_branch login branch)
          if shows commit_sha (pushed_sha reply) then pure tt else lift (err push_error)

  unfoldable pub ensure_branch : String → String → String → ℕ → Step W (Unit {0})
  unfolding push_branch
  ensure_branch login branch commit_sha max_patch_bytes = do
    remote ← call (job.tools.view_branch login branch)
    let ready = (do
      sha ← required (branch_sha remote.output) "could not parse remote issue branch"
      refuse_if (not (shows commit_sha (some sha)))
          "the deterministic issue branch exists with an unexpected commit")
    let missing = (do
      refuse_if (not remote.not_found) "could not reconcile the remote issue branch"
      push_branch login branch commit_sha max_patch_bytes)
    if remote.succeeded then ready else missing
