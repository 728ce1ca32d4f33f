-- ===== src/Publisher/Approval/Laws.antt =====
-- What an approval bundle lets through (src/leftovers/publisher.py).
use leftovers.Base.{
  leb, Option-cases, ℕ, ◌+◌, ◌<◌, String, ◌≡◌, refl, sym, ◌∙◌, ◌↔◌, inl, inr, false, not, some,
  List, arith,
}
use leftovers.Base.Int.{eq_of_parts}
use leftovers.Base.Result.{ok}
use leftovers.Base.Text.{str_eq, eq_iff}
use leftovers.Models.{Instant, IssueCandidate}
use leftovers.Models.Payload.{Json}
use leftovers.Publisher.Approval.{
  ApprovalBundle, Digests, values, bundle_digest, approval_time, create_approval_bundle,
  other_target, other_branch, validate_approval_metadata,
}

-- The facts that an accepted bundle stands for.
pub record IsValid (python : Digests) (now : Instant) (b : ApprovalBundle) (issue : IssueCandidate)
    (branch : String) : Type 0 where
  pub expires : Instant
  pub expires_eq : python.fromisoformat b.expires_at ≡ some expires
  pub not_expired : now < expires
  pub repository_eq : b.repository ≡ issue.repo.slug
  pub issue_number_eq : b.issue_number ≡ issue.number
  pub base_ref_eq : b.base_ref ≡ branch
  pub unchanged : bundle_digest python b ≡ b.bundle_hash

module _ (python : Digests) (now : Instant) (b : ApprovalBundle) (issue : IssueCandidate)
    (branch : String) where
  checks-ok :
      validate_approval_metadata python now b (some issue) (some branch) ≡ ok tt
      → (is_known : Instant) × (python.fromisoformat b.expires_at ≡ some is_known)
        × (leb is_known now ≡ false)
        × (other_target b (some issue) ≡ false)
        × (other_branch b (some branch) ≡ false)
        × (not (str_eq (bundle_digest python b) b.bundle_hash) ≡ false)
  unfolding validate_approval_metadata
  checks-ok h = elim (Option-cases (python.fromisoformat b.expires_at)) [
    | inl e ↦ (0, ground arith, ground arith, ground arith, ground arith, ground arith)
    | inr (at, e) ↦ (at, e, ground arith, ground arith, ground arith, ground arith)
  ]

  accepted :
      validate_approval_metadata python now b (some issue) (some branch) ≡ ok tt
      → IsValid python now b issue branch
  accepted h =
      let checks = checks-ok h in
      record {
        expires = checks.0;
        expires_eq = checks.1;
        not_expired = ground arith;
        repository_eq = (eq_iff b.repository issue.repo.slug).0 (ground arith);
        issue_number_eq = eq_of_parts b.issue_number issue.number (ground arith);
        base_ref_eq = (eq_iff b.base_ref branch).0 (ground arith);
        unchanged = (eq_iff (bundle_digest python b) b.bundle_hash).0 (ground arith);
      }

  accepts :
      IsValid python now b issue branch
      → validate_approval_metadata python now b (some issue) (some branch) ≡ ok tt
  unfolding validate_approval_metadata
  accepts valid =
      let readable = valid.expires_eq in
      let lasting = valid.not_expired in
      let repository = (eq_iff b.repository issue.repo.slug).1 valid.repository_eq in
      let number = valid.issue_number_eq in
      let target = (eq_iff b.base_ref branch).1 valid.base_ref_eq in
      let whole = (eq_iff (bundle_digest python b) b.bundle_hash).1 valid.unchanged in ground arith

  -- A bundle is accepted for an issue and a base branch exactly if its expiry can be read and lies
  -- ahead, it names this repository, issue and branch, and its hash is that of its values.
  pub validate_approval_metadata_iff :
      (validate_approval_metadata python now b (some issue) (some branch) ≡ ok tt)
      ↔ IsValid python now b issue branch
  validate_approval_metadata_iff = (accepted, λ valid. accepts valid)

-- A bundle that was just created is accepted for its issue and branch for the next 30 minutes, if
-- Python reads the expiry that it wrote.
pub validate-create :
    (python : Digests) (created now : Instant) (run_id base_sha base_ref : String)
    (issue : IssueCandidate) (patch : List ℕ) (policy : Json)
    → python.fromisoformat (python.isoformat (created + approval_time))
      ≡ some (created + approval_time)
    → now < created + approval_time
    → validate_approval_metadata python now
        (create_approval_bundle python created run_id issue base_sha base_ref patch policy)
        (some issue)
        (some base_ref)
      ≡ ok tt
unfolding create_approval_bundle values bundle_digest
validate-create python created now run_id base_sha base_ref issue patch policy readable lasting =
    (validate_approval_metadata_iff python now
        (create_approval_bundle python created run_id issue base_sha base_ref patch policy) issue
        base_ref).1
      record {
        expires = created + approval_time;
        expires_eq = readable;
        not_expired = lasting;
        repository_eq = refl;
        issue_number_eq = refl;
        base_ref_eq = refl;
        unchanged = refl;
      }

values-injective :
    (b c : ApprovalBundle) → values b ≡ values c → b.bundle_hash ≡ c.bundle_hash → b ≡ c
unfolding values
values-injective b c h k = cc

-- Two bundles with one hash that are both accepted are one bundle, if SHA-256 tells their values
-- apart: no field of an approval can be changed and the hash kept.
pub validate-unforged :
    (python : Digests) (now : Instant) (b c : ApprovalBundle) (issue other : IssueCandidate)
    (branch target : String)
    → (bundle_digest python b ≡ bundle_digest python c → values b ≡ values c)
    → validate_approval_metadata python now b (some issue) (some branch) ≡ ok tt
    → validate_approval_metadata python now c (some other) (some target) ≡ ok tt
    → b.bundle_hash ≡ c.bundle_hash
    → b ≡ c
validate-unforged python now b c issue other branch target no_collision h k same =
    let one = (validate_approval_metadata_iff python now b issue branch).0 h in
    let two = (validate_approval_metadata_iff python now c other target).0 k in
    values-injective b c (no_collision (one.unchanged ∙ same ∙ sym two.unchanged)) same
