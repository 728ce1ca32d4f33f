-- ===== src/Publisher/Remote/Laws.antt =====
-- The fork and the branch are written only after a check (src/leftovers/publisher.py).
use leftovers.Base.{ℕ, zero, suc, String, refl, Bool, not, List}
use leftovers.Publisher.Reconcile.{shows}
use leftovers.Publisher.Exec.{Action, forked, pushed, refuse_if}
use leftovers.Publisher.Exec.Laws.{Safe, Safe-bind, Safe-attempt, Safe-call, Safe-end, Safe-if}
use leftovers.Publisher.Tools.{Publication}
use leftovers.Publisher.Checks.Laws.{IsGuarded, same, required-Safe, write-Safe}
use leftovers.Publisher.Remote.{
  branch_sha, pushed_sha, fork_ready, await_fork, ensure_fork, push_branch, ensure_branch,
}

module _ {W : Type 0} (job : Publication W) (commit_sha : String) where
  abbrev pub G : List Action → Type 0
  G = IsGuarded job commit_sha

  pub refused-Safe :
      (test : Bool) (message : String) → Safe {W = W} G G (refuse_if test message) (λ _. G)
  refused-Safe test message = Safe-end _ (same job commit_sha) (λ a t e g. g)

  await_fork-Safe : (login : String) (tries : ℕ) → Safe G G (await_fork job login tries) (λ _. G)
  unfolding await_fork
  await_fork-Safe login zero = Safe-end _ (same job commit_sha) (λ a t e g. g)
  await_fork-Safe login (suc tries) =
      Safe-call (job.tools.view_fork login) (same job commit_sha) (λ ready.
        Safe-if (fork_ready job ready) (Safe-end _ (same job commit_sha) (λ a t e g. g))
          (Safe-call job.tools.sleep (same job commit_sha) (λ _. await_fork-Safe login tries)))

  pub ensure_fork-Safe :
      (login : String) (limit : ℕ) → Safe G G (ensure_fork job login commit_sha limit) (λ _. G)
  unfolding ensure_fork
  ensure_fork-Safe login limit =
      Safe-call (job.tools.view_fork login) (same job commit_sha) (λ existing.
        Safe-if existing.succeeded
          (Safe-bind (required-Safe job commit_sha existing.output _) (λ item. refused-Safe _ _))
          (Safe-bind (refused-Safe (not existing.not_found) _) (λ _.
            Safe-bind (write-Safe job commit_sha limit forked job.tools.create_fork refl)
              (λ _. await_fork-Safe login 15))))

  push_branch-Safe :
      (login branch : String) (limit : ℕ)
      → Safe G G (push_branch job login branch commit_sha limit) (λ _. G)
  unfolding push_branch
  push_branch-Safe login branch limit = Safe-call job.tools.authenticate (same job commit_sha) (λ _.
      Safe-attempt (write-Safe job commit_sha limit pushed (job.tools.push login branch) refl) (λ e.
        Safe-call (job.tools.view_branch login branch) (same job commit_sha) (λ reply.
          Safe-if (shows commit_sha (pushed_sha reply))
            (Safe-end _ (same job commit_sha) (λ a t k g. g))
            (Safe-end _ (same job commit_sha) (λ a t k g. g)))))

  pub ensure_branch-Safe :
      (login branch : String) (limit : ℕ)
      → Safe G G (ensure_branch job login branch commit_sha limit) (λ _. G)
  unfolding ensure_branch
  ensure_branch-Safe login branch limit =
      Safe-call (job.tools.view_branch login branch) (same job commit_sha) (λ remote.
        Safe-if remote.succeeded
          (Safe-bind (required-Safe job commit_sha (branch_sha remote.output) _)
            (λ sha. refused-Safe _ _))
          (Safe-bind (refused-Safe (not remote.not_found) _)
            (λ _. push_branch-Safe login branch limit)))
