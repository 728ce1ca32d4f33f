-- ===== src/Publisher/Checks.antt =====
-- `validate_approval` and `validate_committed_approval` of src/leftovers/publisher.py.
pub mod Laws
use leftovers.Base.{is_empty, ℕ, String, not, some}
use leftovers.Base.Text.{str_eq}
use leftovers.Models.{Instant}
use leftovers.Publisher.Approval.{validate_approval_metadata}
use leftovers.Publisher.Exec.{
  Action, checked, Step, Call, lift, pure, ◌>>=◌, ◌>>◌, call, note, refuse_if,
}
use leftovers.Publisher.Tools.{required, Publication}

module _ {W : Type 0} (job : Publication W) where
  abbrev pub refuse_unsafe : Step W (Unit {0})
  refuse_unsafe = do
    dangerous ← call job.tools.unsafe_configuration
    refuse_if dangerous "repository contains unsafe local Git configuration"

  abbrev pub safe_head : Step W String
  safe_head = do head ← call job.tools.head; required head "could not resolve the local Git HEAD"

  abbrev pub check_metadata : Step W Instant
  check_metadata = do
    now ← call job.tools.now
    lift (
        validate_approval_metadata job.tools.digests now job.approval (some job.issue)
          (some job.base_branch))
    pure now

  unfoldable pub validate_approval : Step W (Unit {0})
  validate_approval = do
    check_metadata
    refuse_unsafe
    head ← safe_head
    refuse_if (not (str_eq head job.approval.base_sha))
        "local Git HEAD does not match the approved base SHA"
    current ← call job.tools.inspect_diff
    refuse_if
        (not (str_eq (job.tools.digests.sha256_patch current.patch) job.approval.patch_sha256))
        "workspace patch no longer matches the approved patch"

  unfoldable pub validate_committed_approval : String → ℕ → Step W (Unit {0})
  validate_committed_approval commit_sha max_patch_bytes = do
    now ← check_metadata
    refuse_unsafe
    head ← safe_head
    refuse_if (not (str_eq head commit_sha)) "local Git HEAD changed after publication commit"
    committed ← call (job.tools.inspect_committed job.approval.base_sha max_patch_bytes)
    refuse_if
        (not (str_eq (job.tools.digests.sha256_patch committed.patch) job.approval.patch_sha256))
        "committed tree no longer matches the approved patch"
    left ← call job.tools.inspect_diff
    refuse_if (not (is_empty left.files)) "workspace changed after publication commit"
    note (checked now head committed.patch)

  -- The newest check of the approval precedes each write.
  abbrev pub write : {A : Type 0} → String → ℕ → Action → Call W A → Step W A
  write commit_sha max_patch_bytes action f = do
    validate_committed_approval commit_sha max_patch_bytes
    note action
    call f
