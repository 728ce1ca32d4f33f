-- ===== src/Publisher/Release/Early.antt =====
-- The steps of `publish` before the commit is known (src/leftovers/publisher.py) write nothing.
use leftovers.Base.Int.{ℤ}
use leftovers.Base.{String, List}
use leftovers.Policy.Diff.{DiffInspection}
use leftovers.Publisher.{Published}
use leftovers.Publisher.Exec.{Action, State, Step}
use leftovers.Publisher.Exec.Laws.{
  After, Safe, Safe-bind, Safe-lift, Safe-call, Safe-end, Safe-know,
}
use leftovers.Publisher.Tools.{Publication}
use leftovers.Publisher.Checks.{validate_approval}
use leftovers.Publisher.Checks.Laws.{
  IsGuarded, same, check_metadata-Safe, refuse_unsafe-Safe, safe_head-Safe,
}
use leftovers.Publisher.Remote.Laws.{refused-Safe}
use leftovers.Publisher.Release.{commit_patch}
use leftovers.Base.Result.{err, ok}

module _ {W : Type 0} (job : Publication W) where
  -- A trace that is guarded for every commit, as the empty one is, and for some commit.
  abbrev pub Any : List Action → Type 0
  Any t = (c : String) → IsGuarded job c t

  abbrev pub Some : List Action → Type 0
  Some t = (c : String) × IsGuarded job c t

  pub weaken : (t : List Action) → Any t → Some t
  weaken t g = ("", g "")

  -- Steps that write nothing, before the commit is known.
  pub early-Safe :
      {A : Type 0} {m : Step W A}
      → ((c : String) → Safe (IsGuarded job c) (IsGuarded job c) m (λ _. IsGuarded job c))
      → Safe Some Any m (λ _. Any)
  early-Safe {A} {m} h = record { holds = λ s g. flow_case (m s) (λ c. (h c).holds s (g c)) }
    where
      flow_case :
          (r : Published A × State W)
          → ((c : String) → After (IsGuarded job c) (λ _. IsGuarded job c) r)
          → After Some (λ _. Any) r
      flow_case (ok a, t) k = k
      flow_case (err e, t) k = ("", k "")

  -- Steps of a known commit.
  pub late-Safe :
      {A : Type 0} {Q : A → List Action → Type 0} {m : Step W A} (c : String)
      → Safe (IsGuarded job c) (IsGuarded job c) m Q
      → Safe Some Any m Q
  late-Safe {A} {Q} {m} c h = record { holds = λ s g. flow_case (m s) (h.holds s (g c)) }
    where
      flow_case : (r : Published A × State W) → After (IsGuarded job c) Q r → After Some Q r
      flow_case (ok a, t) k = k
      flow_case (err e, t) k = (c, k)

  pub validate_approval-Safe :
      (c : String)
      → Safe (IsGuarded job c) (IsGuarded job c) (validate_approval job) (λ _. IsGuarded job c)
  unfolding validate_approval
  validate_approval-Safe c = Safe-bind (check_metadata-Safe job c) (λ now. Safe-know (λ valid.
      Safe-bind (refuse_unsafe-Safe job c) (λ _. Safe-bind (safe_head-Safe job c) (λ head.
        Safe-lift _ (same job c) (λ _ at_base.
          Safe-call job.tools.inspect_diff (same job c) (λ current. refused-Safe job c _ _))))))

  pub commit_patch-Safe :
      (diff : DiffInspection) (login : String) (user_id : ℤ) (c : String)
      → Safe
          (IsGuarded job c)
          (IsGuarded job c)
          (commit_patch job diff login user_id)
          (λ _. IsGuarded job c)
  unfolding commit_patch
  commit_patch-Safe diff login user_id c = Safe-bind (refuse_unsafe-Safe job c) (λ _.
      Safe-call job.tools.add_all (same job c) (λ _. Safe-lift _ (same job c) (λ message _.
        Safe-call (job.tools.commit login user_id message) (same job c) (λ _.
          Safe-call job.tools.rev_parse (same job c) (λ commit_sha.
            Safe-call _ (same job c) (λ committed. Safe-lift _ (same job c) (λ _ exact.
              Safe-call job.tools.inspect_diff (same job c) (λ left.
                Safe-lift _ (same job c)
                  (λ _ clean. Safe-end (ok commit_sha) (same job c) (λ a t e g. g))))))))))
