-- ===== src/Publisher/Opening/Laws.antt =====
-- The URL that `publish` gives (src/leftovers/publisher.py) is that of a pull request that GitHub shows as
-- expected.
use leftovers.Base.{
  if◌then◌else◌, ℕ, String, ◌≡◌, refl, ap, ◌∙◌, subst, ◌⊎◌, inl, inr, Bool, true, false, not,
  Option, none, some, List, arith,
}
use leftovers.Base.Text.{eq_iff}
use leftovers.Models.Payload.{Json, arr, nil}
use leftovers.Publisher.{PublishError, publication_error, library_error, Published, refuse_when}
use leftovers.Publisher.Reconcile.{Expected, shows, reconciled_pr_url}
use leftovers.Publisher.Reconcile.Laws.{reconciled_pr_url-IsOurs}
use leftovers.Publisher.Exec.{Action, opened, Step, lift, pure, ◌>>=◌}
use leftovers.Publisher.Exec.Laws.{
  Safe, Safe-bind, Safe-attempt, Safe-lift, Safe-call, Safe-answer, Safe-end,
}
use leftovers.Publisher.Tools.{Reply, required, text_option, given, Publication}
use leftovers.Publisher.Checks.Laws.{same, write-Safe}
use leftovers.Publisher.Remote.Laws.{G}
use leftovers.Publisher.Opening.{
  first_url, verify_created_pr, recover, create_or_recover, settle_created, open_pr, find_or_open,
}
use leftovers.Publisher.Opening.Shown.{HasPr, viewed-HasPr, branch-HasPr}
use leftovers.Base.Result.{err, ok, ok-injective}

pub Safe-required :
    {W A B : Type 0} {I P : List Action → Type 0} {R : B → List Action → Type 0} {f : A → Step W B}
    (found : Option A) (message : String)
    → ((t : List Action) → P t → I t)
    → ((a : A) → found ≡ some a → Safe I P (f a) R)
    → Safe I P (required found message >>= f) R
unfolding ◌>>=◌ lift
Safe-required none message weaken g = record { holds = λ s p. weaken s.trace p }
Safe-required (some a) message weaken g = record { holds = λ s p. (g a refl).holds s p }

text_option-shows :
    (url : String) (found : Option String)
    → refuse_when
        (not (shows url (text_option found)))
        "created PR verification returned a different URL"
      ≡ ok tt
    → found ≡ some url
unfolding shows
text_option-shows url none h = cc
text_option-shows url (some s) h = ap some ((eq_iff s url).0 (ground arith))

given-ok :
    (e : PublishError) (r : Published (Option String)) (url : String)
    → given e r ≡ ok url
    → r ≡ ok (some url)
given-ok e (ok (some u)) url h = cc
given-ok e (ok none) url h = cc
given-ok e (err library_error) url h = cc
given-ok e (err (publication_error message)) url h = cc

module _ {W : Type 0} (job : Publication W) (branch commit_sha : String) (expected : Expected) where
  abbrev pub Opened : String → List Action → Type 0
  Opened url t = HasPr job branch expected url × G job commit_sha t

  verify_created_pr-Safe :
      (url : String)
      → Safe (G job commit_sha) (G job commit_sha) (verify_created_pr job expected url) Opened
  unfolding verify_created_pr
  verify_created_pr-Safe url =
      Safe-answer (job.tools.view_pr url) (same job commit_sha) (λ reply w seen.
        Safe-required reply _ (same job commit_sha) (λ item found.
          Safe-lift _ (same job commit_sha) (λ verified shown.
            Safe-lift _ (same job commit_sha) (λ _ agreed.
              Safe-end (ok url) (same job commit_sha) (λ a t e g. (
                subst (HasPr job branch expected) (ok-injective e) (
                    viewed-HasPr job branch expected item url w (seen ∙ ap ok found)
                      (shown ∙ ap ok (text_option-shows url verified agreed))),
                g,
              ))))))

  recovered-HasPr :
      (login : String) (w : W) (reply : Reply) (e : PublishError) (url : String)
      → (job.tools.branch_prs login branch false w).0 ≡ ok reply
      → (elim (if reply.succeeded then reply.output else some (arr nil)) [
        | none ↦ err e
        | some answer ↦ given e (reconciled_pr_url expected answer)
      ])
        ≡ ok url
      → HasPr job branch expected url
  recovered-HasPr login w reply e url seen = go reply.succeeded reply.output refl
    where
      go :
          (succeeded : Bool) (output : Option Json)
          → reply.output ≡ output
          → (elim (if succeeded then output else some (arr nil)) [
            | none ↦ err e
            | some answer ↦ given e (reconciled_pr_url expected answer)
          ])
            ≡ ok url
          → HasPr job branch expected url
      go true none listed h = cc
      go true (some answer) listed h =
          branch-HasPr job branch expected login false w reply answer url seen listed
            (given-ok e (reconciled_pr_url expected answer) url h)
      go false output listed h =
          let (shown, only, _) =
            reconciled_pr_url-IsOurs expected (arr nil) url
              (given-ok e (reconciled_pr_url expected (arr nil)) url h) in
          cc

  recover-Safe :
      (login : String) (e : PublishError)
      → Safe (G job commit_sha) (G job commit_sha) (recover job expected login branch e) Opened
  unfolding recover
  recover-Safe login e =
      Safe-answer (job.tools.branch_prs login branch false) (same job commit_sha) (λ reply w seen.
        Safe-lift _ (same job commit_sha) (λ url found.
          Safe-end (ok url) (same job commit_sha) (λ a t k g. (
            subst (HasPr job branch expected) (ok-injective k)
                (recovered-HasPr login w reply e url seen found),
            g,
          ))))

  -- What is known of a creation: of its lines nothing, of a URL that was found that it is shown.
  abbrev Created : List String ⊎ String → List Action → Type 0
  Created (inl lines) t = G job commit_sha t
  Created (inr url) t = HasPr job branch expected url × G job commit_sha t

  create_or_recover-Safe :
      (login : String) (limit : ℕ)
      → Safe
          (G job commit_sha)
          (G job commit_sha)
          (create_or_recover job expected login branch commit_sha limit)
          Created
  unfolding create_or_recover
  create_or_recover-Safe login limit =
      Safe-attempt
        (Safe-bind
          (write-Safe job commit_sha limit opened (job.tools.create_pr login branch expected.title)
            refl)
          (λ lines.
            Safe-end (ok (inl lines)) (same job commit_sha)
              (λ a t k g. subst (λ r. Created r t) (ok-injective k) g)))
        (λ e. Safe-bind (recover-Safe login e) (λ url.
          Safe-end (ok (inr url)) (λ t g. g.1)
            (λ a t k g. subst (λ r. Created r t) (ok-injective k) g)))

  settle_created-Safe :
      (created : List String ⊎ String)
      → Safe (G job commit_sha) (Created created) (settle_created job expected created) Opened
  settle_created-Safe (inr url) =
      Safe-end (ok url) (λ t g. g.1) (λ a t k g. subst (λ r. Opened r t) (ok-injective k) g)
  settle_created-Safe (inl lines) = Safe-lift _ (same job commit_sha) (λ _ named.
      Safe-lift _ (same job commit_sha) (λ _ ours. verify_created_pr-Safe (first_url lines)))

  open_pr-Safe :
      (login : String) (limit : ℕ)
      → Safe
          (G job commit_sha)
          (G job commit_sha)
          (open_pr job expected login branch commit_sha limit)
          Opened
  unfolding open_pr
  open_pr-Safe login limit =
      Safe-call (job.tools.write_body expected.body) (same job commit_sha)
        (λ _. Safe-bind (create_or_recover-Safe login limit) settle_created-Safe)

  found-Safe :
      (login : String) (limit : ℕ) (w : W) (reply : Reply) (answer : Json) (found : Option String)
      → (job.tools.branch_prs login branch true w).0 ≡ ok reply
      → reply.output ≡ some answer
      → reconciled_pr_url expected answer ≡ ok found
      → Safe
          (G job commit_sha)
          (G job commit_sha)
          (elim found [
            | some url ↦ pure url
            | none ↦ open_pr job expected login branch commit_sha limit
          ])
          Opened
  found-Safe login limit w reply answer none seen listed h = open_pr-Safe login limit
  found-Safe login limit w reply answer (some url) seen listed h =
      Safe-end (ok url) (same job commit_sha) (λ a t k g. (
        subst (HasPr job branch expected) (ok-injective k)
            (branch-HasPr job branch expected login true w reply answer url seen listed h),
        g,
      ))

  pub find_or_open-Safe :
      (login : String) (limit : ℕ)
      → Safe
          (G job commit_sha)
          (G job commit_sha)
          (find_or_open job expected login branch commit_sha limit)
          Opened
  unfolding find_or_open
  find_or_open-Safe login limit =
      Safe-answer (job.tools.branch_prs login branch true) (same job commit_sha) (λ reply w seen.
        Safe-required reply.output _ (same job commit_sha) (λ answer listed.
          Safe-lift _ (same job commit_sha)
            (λ found h. found-Safe login limit w reply answer found seen listed h)))
