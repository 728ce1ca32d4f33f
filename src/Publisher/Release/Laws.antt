-- ===== src/Publisher/Release/Laws.antt =====
-- What a publication promises (src/leftovers/publisher.py), whatever Git and GitHub answer.
use leftovers.Base.{
  keep, is_empty, ℕ, String, ◌≡◌, ap, ◌∙◌, subst, Bool, Option, none, some, List, [],
}
use leftovers.Config.{PublicationConfig}
use leftovers.Models.Payload.{Json, arr}
use leftovers.Policy.Diff.{DiffInspection}
use leftovers.Publisher.{Published}
use leftovers.Publisher.Title.{safe_title}
use leftovers.Publisher.Reconcile.{validate_open_pr_preflight, Expected, reconciled_pr_url}
use leftovers.Publisher.Exec.{Action, State, pure, ◌>>=◌}
use leftovers.Publisher.Exec.Laws.{
  After, Safe, Safe-bind, Safe-lift, Safe-call, Safe-answer, Safe-end, Safe-if,
}
use leftovers.Publisher.Tools.{PublishResult, patch_limit, Publication}
use leftovers.Publisher.Checks.Laws.{IsGuarded, same}
use leftovers.Publisher.Remote.Laws.{ensure_fork-Safe, ensure_branch-Safe}
use leftovers.Publisher.Opening.Shown.{HasPr, open-HasPr}
use leftovers.Publisher.Opening.Laws.{Safe-required, Opened, find_or_open-Safe}
use leftovers.Publisher.Release.{
  is_matching, items_of_list, preflight, branch_of, release, expected_of, publish,
}
use leftovers.Base.Result.{err, ok, ok-injective}
use leftovers.Publisher.Release.Early.{
  Any, Some, weaken, early-Safe, late-Safe, validate_approval-Safe, commit_patch-Safe,
}

module _ {W : Type 0} (job : Publication W) where
  module _ (branch commit_sha : String) (expected : Expected) where
    abbrev Taken : Option String → List Action → Type 0
    Taken none t = IsGuarded job commit_sha t
    Taken (some url) t = HasPr job branch expected url × IsGuarded job commit_sha t

    preflight-Safe :
        (config : PublicationConfig) (login : String)
        → Safe
            (IsGuarded job commit_sha)
            (IsGuarded job commit_sha)
            (preflight job config expected login branch)
            Taken
    unfolding preflight
    preflight-Safe config login =
        Safe-answer (job.tools.open_prs login) (same job commit_sha) (λ reply w seen.
          Safe-required reply _ (same job commit_sha) (λ answer found.
            Safe-lift _ (same job commit_sha) (λ items listed.
              Safe-if (is_empty (keep (is_matching login branch) items))
                (Safe-lift _ (same job commit_sha) (λ _ room.
                  Safe-end (ok none) (same job commit_sha)
                    (λ a t e g. subst (λ r. Taken r t) (ok-injective e) g)))
                (Safe-lift _ (same job commit_sha) (λ url h.
                  Safe-end (ok url) (same job commit_sha) (λ a t e g.
                    subst (λ r. Taken r t) (ok-injective e)
                      (taken w answer items url (seen ∙ ap ok found) listed h t g)))))))
      where
        taken :
            (w : W) (answer : Json) (items : List Json) (url : Option String)
            → (job.tools.open_prs login w).0 ≡ ok (some answer)
            → validate_open_pr_preflight answer job.issue.repo.slug ≡ ok items
            → reconciled_pr_url expected
                (arr (items_of_list (keep (is_matching login branch) items)))
              ≡ ok url
            → (t : List Action) → IsGuarded job commit_sha t
            → Taken url t
        taken w answer items none seen listed h t g = g
        taken w answer items (some url) seen listed h t g =
            (open-HasPr job branch expected login w answer items url seen listed h, g)

    release-Safe :
        (login : String) (limit : ℕ)
        → Safe
            (IsGuarded job commit_sha)
            (IsGuarded job commit_sha)
            (release job expected login branch commit_sha limit)
            (Opened job branch commit_sha expected)
    unfolding release
    release-Safe login limit = Safe-bind (ensure_fork-Safe job commit_sha login limit) (λ _.
        Safe-bind (ensure_branch-Safe job commit_sha login branch limit)
          (λ _. find_or_open-Safe job branch commit_sha expected login limit))

  -- The result names a pull request that GitHub shows as a draft of its commit on the approved base,
  -- with the cleaned title and the given body; each write followed a check for that commit.
  abbrev pub Done : List ℕ → String → PublishResult → List Action → Type 0
  Done title body result t =
      (shown : List ℕ) × (safe_title 240 title ≡ ok shown)
      × HasPr job result.branch (expected_of job result.commit_sha shown body) result.pr_url
      × IsGuarded job result.commit_sha t

  module _ (title shown : List ℕ) (body commit_sha login branch : String)
      (cleaned : safe_title 240 title ≡ ok shown) where
    abbrev expected : Expected
    expected = expected_of job commit_sha shown body

    url-Safe :
        (taken : Option String) (limit : ℕ)
        → Safe
            (IsGuarded job commit_sha)
            (Taken branch commit_sha expected taken)
            (elim taken [
              | some url ↦ pure url
              | none ↦ release job expected login branch commit_sha limit
            ])
            (Opened job branch commit_sha expected)
    url-Safe none limit = release-Safe branch commit_sha expected login limit
    url-Safe (some url) limit =
        Safe-end (ok url) (λ t g. g.1)
          (λ a t e g. subst (λ r. Opened job branch commit_sha expected r t) (ok-injective e) g)

    finished-Safe :
        (config : PublicationConfig) (limit : ℕ)
        → Safe
            (IsGuarded job commit_sha)
            (IsGuarded job commit_sha)
            (preflight job config expected login branch >>= λ taken.
              (elim taken [
                | some url ↦ pure url
                | none ↦ release job expected login branch commit_sha limit
              ])
              >>= λ url. pure record { branch = branch; commit_sha = commit_sha; pr_url = url })
            (Done title body)
    finished-Safe config limit =
        Safe-bind (preflight-Safe branch commit_sha expected config login) (λ taken.
          Safe-bind (url-Safe taken limit) (λ url.
            Safe-end (ok record { branch = branch; commit_sha = commit_sha; pr_url = url })
              (λ t g. g.1)
              (λ a t e g.
                subst (λ r. Done title body r t) (ok-injective e) (shown, cleaned, g.0, g.1))))

  publish-Safe :
      (config : PublicationConfig) (publish_flag : Bool) (diff : DiffInspection) (title : List ℕ)
      (body : String)
      → Safe
          (Some job)
          (Any job)
          (publish job config publish_flag diff title body)
          (Done title body)
  unfolding publish
  publish-Safe config publish_flag diff title body = Safe-lift _ (weaken job) (λ _ authorized.
      Safe-bind (early-Safe job (validate_approval-Safe job)) (λ _.
        Safe-call job.tools.identity (weaken job) (λ account.
          Safe-lift _ (weaken job) (λ _ identified. Safe-lift _ (weaken job) (λ shown cleaned.
            Safe-bind (early-Safe job (commit_patch-Safe job diff account.0 account.1))
              (λ commit_sha. late-Safe job commit_sha (
                finished-Safe title shown body commit_sha account.0 (branch_of job config) cleaned
                  config (patch_limit job.tools diff))))))))

  -- However a publication ends, and whatever Git and GitHub answered: each of its writes (the fork, the
  -- push, the pull request) directly follows a check that passed, and every check found the approval
  -- bundle whole, ahead of its expiry and for this issue and branch, Git's HEAD at one and the same
  -- commit, and the committed patch with the hash that was approved.
  pub publish-guarded :
      (config : PublicationConfig) (publish_flag : Bool) (diff : DiffInspection) (title : List ℕ)
      (body : String) (world : W)
      → Some job
          (publish job config publish_flag diff title body
            (record { world = world; trace = [] })).1.trace
  publish-guarded config publish_flag diff title body world =
      ended (publish job config publish_flag diff title body start)
        ((publish-Safe config publish_flag diff title body).holds start (λ c. tt))
    where
      start : State W
      start = record { world = world; trace = [] }

      ended :
          (r : Published PublishResult × State W)
          → After (Some job) (Done title body) r
          → Some job r.1.trace
      ended (ok result, s) g = (result.commit_sha, g.3)
      ended (err e, s) g = g

  -- A publication that gives a result names a pull request at a URL that an answer of GitHub shows:
  -- the answer for that URL, the only one listed for the branch of the result, or the only one of
  -- that branch among an account's open ones. What it shows is in the approved repository, a draft
  -- whose head is the commit of the result, on the approved base branch, with the given body and the
  -- title that `_safe_title` makes of the given one.
  pub publish-HasPr :
      (config : PublicationConfig) (publish_flag : Bool) (diff : DiffInspection) (title : List ℕ)
      (body : String) (world : W) (result : PublishResult) (after_state : State W)
      → publish job config publish_flag diff title body (record { world = world; trace = [] })
        ≡ (ok result, after_state)
      → (shown : List ℕ) × (safe_title 240 title ≡ ok shown)
        × HasPr job result.branch (expected_of job result.commit_sha shown body) result.pr_url
  publish-HasPr config publish_flag diff title body world result after_state h =
      let g : After (Some job) (Done title body) (ok result, after_state) =
        subst (After (Some job) (Done title body)) h
          ((publish-Safe config publish_flag diff title body).holds _ (λ c. tt)) in
      (g.0, g.1, g.2)
