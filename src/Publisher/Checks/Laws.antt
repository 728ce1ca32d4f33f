-- ===== src/Publisher/Checks/Laws.antt =====
-- Every write of the publisher (src/leftovers/publisher.py) follows a check of the approval.
use leftovers.Base.{
  ℕ, String, ◌≡◌, refl, subst, Bool, true, false, not, Option, none, some, List, [], ◌∷◌, arith,
}
use leftovers.Base.Text.{str_eq, eq_iff}
use leftovers.Models.{Instant}
use leftovers.Publisher.{refuse_when}
use leftovers.Publisher.Approval.{validate_approval_metadata}
use leftovers.Publisher.Approval.Laws.{IsValid, validate_approval_metadata_iff}
use leftovers.Publisher.Exec.{Action, checked, forked, pushed, opened, Call}
use leftovers.Publisher.Exec.Laws.{
  Safe, Safe-bind, Safe-lift, Safe-call, Safe-last, Safe-end, Safe-note, Safe-know,
}
use leftovers.Publisher.Tools.{required, Publication}
use leftovers.Publisher.Checks.{
  refuse_unsafe, safe_head, check_metadata, validate_committed_approval, write,
}
use leftovers.Base.Result.{ok, ok-injective}

abbrev pub is_check : List Action → Bool
is_check (checked now head patch ∷ t) = true
is_check _ = false

module _ {W : Type 0} (job : Publication W) (commit_sha : String) where
  -- What a check found: the approval was valid at that time, Git's HEAD was the commit, and the
  -- committed patch was the approved one.
  pub record IsApproved (now : Instant) (head : String) (patch : List ℕ) : Type 0 where
    pub valid : IsValid job.tools.digests now job.approval job.issue job.base_branch
    pub head_eq : head ≡ commit_sha
    pub patch_eq : job.tools.digests.sha256_patch patch ≡ job.approval.patch_sha256

  -- The newest action first: each check found what it had to, and each write follows a check.
  abbrev pub IsGuarded : List Action → Type 0
  IsGuarded [] = Unit {0}
  IsGuarded (checked now head patch ∷ t) = IsApproved now head patch × IsGuarded t
  IsGuarded (forked ∷ t) = (is_check t ≡ true) × IsGuarded t
  IsGuarded (pushed ∷ t) = (is_check t ≡ true) × IsGuarded t
  IsGuarded (opened ∷ t) = (is_check t ≡ true) × IsGuarded t

  abbrev pub JustChecked : List Action → Type 0
  JustChecked t = (is_check t ≡ true) × IsGuarded t

  pub same : (t : List Action) → IsGuarded t → IsGuarded t
  same t g = g

  abbrev Accepted : Instant → Type 0
  Accepted now =
      validate_approval_metadata job.tools.digests now job.approval (some job.issue)
        (some job.base_branch)
      ≡ ok tt

  pub check_metadata-Safe :
      Safe IsGuarded IsGuarded (check_metadata job) (λ now t. Accepted now × IsGuarded t)
  check_metadata-Safe = Safe-call job.tools.now same (λ now.
      Safe-lift _ same
        (λ _ valid. Safe-end (ok now) same (λ a t e g. (subst Accepted (ok-injective e) valid, g))))

  pub refuse_unsafe-Safe : Safe IsGuarded IsGuarded (refuse_unsafe job) (λ _. IsGuarded)
  refuse_unsafe-Safe =
      Safe-call job.tools.unsafe_configuration same (λ dangerous. Safe-end _ same (λ a t e g. g))

  pub required-Safe :
      {A : Type 0} (found : Option A) (message : String)
      → Safe {W = W} IsGuarded IsGuarded (required found message) (λ _. IsGuarded)
  required-Safe none message = Safe-end _ same (λ a t e g. g)
  required-Safe (some a) message = Safe-end _ same (λ a t e g. g)

  pub safe_head-Safe : Safe IsGuarded IsGuarded (safe_head job) (λ _. IsGuarded)
  safe_head-Safe =
      Safe-call job.tools.head same
        (λ found. required-Safe found "could not resolve the local Git HEAD")

  equal_of : (a b message : String) → refuse_when (not (str_eq a b)) message ≡ ok tt → a ≡ b
  equal_of a b message h = (eq_iff a b).0 (ground arith)

  -- After the check, the newest entry of the trace is what it found.
  pub validate_committed_approval-Safe :
      (limit : ℕ)
      → Safe IsGuarded IsGuarded
          (validate_committed_approval job commit_sha limit)
          (λ _. JustChecked)
  unfolding validate_committed_approval
  validate_committed_approval-Safe limit = Safe-bind check_metadata-Safe (λ now. Safe-know (λ valid.
      Safe-bind refuse_unsafe-Safe (λ _. Safe-bind safe_head-Safe (λ head.
        Safe-lift _ same (λ _ at_commit. Safe-call _ same (λ committed.
          Safe-lift _ same (λ _ approved. Safe-call job.tools.inspect_diff same (λ left.
            Safe-lift _ same (λ _ clean. Safe-note (checked now head committed.patch) (λ t g. (
              refl,
              (
                record {
                  valid =
                      (validate_approval_metadata_iff job.tools.digests now job.approval job.issue
                          job.base_branch).0
                        valid;
                  head_eq = equal_of head commit_sha _ at_commit;
                  patch_eq = equal_of _ job.approval.patch_sha256 _ approved;
                },
                g,
              ),
            )))))))))))

  -- A write right after the check, whichever it is.
  abbrev pub is_write : Action → Bool
  is_write (checked now head patch) = false
  is_write _ = true

  guarded_write :
      (action : Action) (t : List Action)
      → is_write action ≡ true
      → JustChecked t
      → IsGuarded (action ∷ t)
  guarded_write (checked now head patch) t h g = cc
  guarded_write forked t h g = g
  guarded_write pushed t h g = g
  guarded_write opened t h g = g

  pub write-Safe :
      {A : Type 0} (limit : ℕ) (action : Action) (c : Call W A)
      → is_write action ≡ true
      → Safe IsGuarded IsGuarded (write job commit_sha limit action c) (λ _. IsGuarded)
  write-Safe limit action c h = Safe-bind (validate_committed_approval-Safe limit) (λ _.
      Safe-bind (Safe-note action (λ t g. guarded_write action t h g)) (λ _. Safe-last c same))
