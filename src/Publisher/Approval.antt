-- ===== src/Publisher/Approval.antt =====
-- `create_approval_bundle`, `_validate_approval_metadata` and `assert_authorized` of
-- src/leftovers/publisher.py.
pub mod Laws
use leftovers.Config.{PublicationConfig}
use leftovers.Base.{
  leb, ℕ, ◌+◌, ◌*◌, String, Bool, false, not, ◌&&◌, ◌||◌, Option, none, some, List,
}
use leftovers.Base.Int.{ℤ, eqb_ℤ}
use leftovers.Base.Result.{err, ok, ◌>>=◌, ◌>>◌}
use leftovers.Base.Text.{str_eq}
use leftovers.Models.{Instant, second, IssueCandidate}
use leftovers.Models.Payload.{Json, int, text, obj, end, field}
use leftovers.Publisher.{library_error, Published, refuse_when}

pub record ApprovalBundle : Type 0 where
  pub run_id : String
  pub repository : String
  pub issue_number : ℤ
  pub base_ref : String
  pub base_sha : String
  pub patch_sha256 : String
  pub policy_hash : String
  pub approved_at : String
  pub expires_at : String
  pub bundle_hash : String

-- Python's library, as the publisher calls it: the hexadecimal SHA-256 of a text's bytes, and of a
-- patch's, `json.dumps` with sorted keys, `isoformat` of an instant in UTC, and `fromisoformat` of a
-- text (nothing if it raises).
pub record Digests : Type 0 where
  pub sha256 : String → String
  pub sha256_patch : List ℕ → String
  pub dumps : Json → String
  pub isoformat : Instant → String
  pub fromisoformat : String → Option Instant

-- The dictionary `values` of a bundle, which its hash covers.
unfoldable pub values : ApprovalBundle → Json
values b = obj (
    field "run_id" (text b.run_id) (
      field "repository" (text b.repository) (
        field "issue_number" (int b.issue_number) (
          field "base_ref" (text b.base_ref) (
            field "base_sha" (text b.base_sha) (
              field "patch_sha256" (text b.patch_sha256) (
                field "policy_hash" (text b.policy_hash) (
                  field "approved_at" (text b.approved_at)
                    (field "expires_at" (text b.expires_at) end)))))))))

unfoldable pub bundle_digest : Digests → ApprovalBundle → String
unfolding values
bundle_digest python b = python.sha256 (python.dumps (values b))

-- The 30 minutes of an approval.
abbrev pub approval_time : ℕ
approval_time = 1800 * second

unfoldable pub create_approval_bundle :
    Digests → Instant → String → IssueCandidate → String → String → List ℕ → Json → ApprovalBundle
unfolding bundle_digest
create_approval_bundle python now run_id issue base_sha base_ref patch policy_document =
    let unsigned : ApprovalBundle = record {
      run_id = run_id;
      repository = issue.repo.slug;
      issue_number = issue.number;
      base_ref = base_ref;
      base_sha = base_sha;
      patch_sha256 = python.sha256_patch patch;
      policy_hash = python.sha256 (python.dumps policy_document);
      approved_at = python.isoformat now;
      expires_at = python.isoformat (now + approval_time);
      bundle_hash = "";
    } in
    record unsigned { bundle_hash = bundle_digest python unsigned }

abbrev pub other_target : ApprovalBundle → Option IssueCandidate → Bool
other_target b none = false
other_target b (some issue) =
    not (str_eq b.repository issue.repo.slug) || not (eqb_ℤ b.issue_number issue.number)

abbrev pub other_branch : ApprovalBundle → Option String → Bool
other_branch b none = false
other_branch b (some branch) = not (str_eq b.base_ref branch)

abbrev pub or_library_error : {A : Type 0} → Option A → Published A
or_library_error none = err library_error
or_library_error (some a) = ok a

unfoldable pub validate_approval_metadata :
    Digests
    → Instant
    → ApprovalBundle
    → Option IssueCandidate
    → Option String
    → Published (Unit {0})
unfolding bundle_digest
validate_approval_metadata python now b issue base_branch = do
  expires ← or_library_error (python.fromisoformat b.expires_at)
  refuse_when (leb expires now) "approval bundle expired"
  refuse_when (other_target b issue) "approval bundle target does not match the publication target"
  refuse_when (other_branch b base_branch)
      "approval bundle base branch does not match the publication target"
  refuse_when (not (str_eq (bundle_digest python b) b.bundle_hash))
      "approval bundle integrity check failed"

-- What the configuration and the command line have to allow before anything is published.
unfoldable pub assert_authorized : PublicationConfig → Bool → Published (Unit {0})
assert_authorized config publish_flag = do
  refuse_when (not (str_eq config.mode "draft-pr")) "publication.mode is not draft-pr"
  refuse_when (not config.external_writes_acknowledged)
      "publication.external_writes_acknowledged is false"
  refuse_when (config.require_cli_flag && not publish_flag)
      "the --publish authorization flag is required"
  refuse_when (not config.draft) "v1 refuses to publish a non-draft PR"
  refuse_when (not config.fork) "v1 publishes only through a contributor fork"
