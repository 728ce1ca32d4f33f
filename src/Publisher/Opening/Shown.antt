-- ===== src/Publisher/Opening/Shown.antt =====
-- What it is for an answer of GitHub to show a pull request as expected (src/leftovers/publisher.py).
use leftovers.Base.{keep, String, ◌≡◌, ◌⊎◌, inl, inr, Bool, some, List, [], ◌∷◌}
use leftovers.Models.Payload.{Json, arr, nil, cons}
use leftovers.Publisher.Reconcile.{validate_open_pr_preflight, Expected, reconciled_pr_url}
use leftovers.Publisher.Reconcile.Laws.{IsOurs, reconciled_pr_url-IsOurs}
use leftovers.Publisher.Tools.{Reply, Publication}
use leftovers.Publisher.Release.{is_matching, items_of_list}
use leftovers.Base.Result.{ok}

single_item :
    (items : List Json) (item : Json)
    → arr (items_of_list items) ≡ arr (cons item nil)
    → items ≡ item ∷ []
single_item [] item h = cc
single_item (x ∷ []) item h = cc
single_item (x ∷ y ∷ items) item h = cc

module _ {W : Type 0} (job : Publication W) (branch : String) where
  -- GitHub answered with this item when it was asked for the pull request at the URL.
  abbrev pub IsViewed : String → Json → Type 0
  IsViewed url item = (w : W) × ((job.tools.view_pr url w).0 ≡ ok (some item))

  -- It was the one pull request in GitHub's answer for the branch of an account.
  abbrev pub IsBranchPr : Json → Type 0
  IsBranchPr item =
      (login : String) × (open_only : Bool) × (w : W) × (reply : Reply) × ((job.tools.branch_prs
          login branch open_only w).0
        ≡ ok reply)
      × (reply.output ≡ some (arr (cons item nil)))

  -- It was the one pull request of the branch in GitHub's answer for the open ones of an account.
  abbrev pub IsOpenPr : Json → Type 0
  IsOpenPr item =
      (login : String) × (w : W) × (answer : Json) × (items : List Json) × ((job.tools.open_prs
          login w).0
        ≡ ok (some answer))
      × (validate_open_pr_preflight answer job.issue.repo.slug ≡ ok items)
      × (keep (is_matching login branch) items ≡ item ∷ [])

  -- An answer of GitHub shows a pull request with that URL, a draft of the expected commit, base and
  -- text.
  abbrev pub HasPr : Expected → String → Type 0
  HasPr expected url =
      (item : Json) × IsOurs expected url item
      × (IsViewed url item ⊎ IsBranchPr item ⊎ IsOpenPr item)

  pub viewed-HasPr :
      (expected : Expected) (item : Json) (url : String) (w : W)
      → (job.tools.view_pr url w).0 ≡ ok (some item)
      → reconciled_pr_url expected (arr (cons item nil)) ≡ ok (some url)
      → HasPr expected url
  viewed-HasPr expected item url w seen h =
      let (shown, only, ours) = reconciled_pr_url-IsOurs expected _ url h in
      let same : item ≡ shown = cc in (shown, ours, inl (w, cc))

  pub branch-HasPr :
      (expected : Expected) (login : String) (open_only : Bool) (w : W) (reply : Reply)
      (answer : Json) (url : String)
      → (job.tools.branch_prs login branch open_only w).0 ≡ ok reply
      → reply.output ≡ some answer
      → reconciled_pr_url expected answer ≡ ok (some url)
      → HasPr expected url
  branch-HasPr expected login open_only w reply answer url seen listed h =
      let (shown, only, ours) = reconciled_pr_url-IsOurs expected answer url h in
      (shown, ours, inr (inl (login, open_only, w, reply, seen, cc)))

  pub open-HasPr :
      (expected : Expected) (login : String) (w : W) (answer : Json) (items : List Json)
      (url : String)
      → (job.tools.open_prs login w).0 ≡ ok (some answer)
      → validate_open_pr_preflight answer job.issue.repo.slug ≡ ok items
      → reconciled_pr_url expected (arr (items_of_list (keep (is_matching login branch) items)))
        ≡ ok (some url)
      → HasPr expected url
  open-HasPr expected login w answer items url seen listed h =
      let (shown, only, ours) = reconciled_pr_url-IsOurs expected _ url h in
      (shown, ours, inr (inr (login, w, answer, items, seen, listed, single_item _ shown only)))
