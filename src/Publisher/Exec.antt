-- ===== src/Publisher/Exec.antt =====
-- A step of the publisher (src/leftovers/publisher.py): it changes the world outside, and it gives a
-- value or raises. The trace holds the approvals that were checked and the writes to GitHub, the
-- newest first; it survives an exception.
pub mod Laws
use leftovers.Base.{ℕ, String, Bool, List, ◌∷◌}
use leftovers.Base.Result.{err, ok}
use leftovers.Models.{Instant}
use leftovers.Publisher.{PublishError, publication_error, library_error, Published, refuse_when}

-- A check of the approval that passed, with its clock, the commit that Git's HEAD names and the
-- committed patch; and the three writes.
pub data Action : Type 0 where
  checked : Instant → String → List ℕ → Action
  forked : Action
  pushed : Action
  opened : Action

pub record State (W : Type 0) : Type 0 where
  pub world : W
  pub trace : List Action

abbrev pub Step : Type 0 → Type 0 → Type 0
Step W A = State W → Published A × State W

abbrev pub Call : Type 0 → Type 0 → Type 0
Call W A = W → Published A × W

module _ {W : Type 0} where
  unfoldable pub lift : {A : Type 0} → Published A → Step W A
  lift r s = (r, s)

  abbrev pub pure : {A : Type 0} → A → Step W A
  pure a = lift (ok a)

  abbrev pub go_on : {A B : Type 0} → (A → Step W B) → Published A × State W → Published B × State W
  go_on f (ok a, t) = f a t
  go_on f (err e, t) = (err e, t)

  abbrev pub on_refusal :
      {A : Type 0} → (PublishError → Step W A) → Published A × State W → Published A × State W
  on_refusal handler (err (publication_error message), t) = handler (publication_error message) t
  on_refusal handler (err library_error, t) = (err library_error, t)
  on_refusal handler (ok a, t) = (ok a, t)

  infixl 10 ◌>>=◌ ◌>>◌
  unfoldable pub ◌>>=◌ : {A B : Type 0} → Step W A → (A → Step W B) → Step W B
  ◌>>=◌ m f s = go_on f (m s)

  abbrev pub ◌>>◌ : {A B : Type 0} → Step W A → Step W B → Step W B
  m >> k = m >>= λ _. k

  -- `try: m except PublicationError as e: handler(e)`.
  unfoldable pub attempt : {A : Type 0} → Step W A → (PublishError → Step W A) → Step W A
  attempt m handler s = on_refusal handler (m s)

  unfoldable pub call : {A : Type 0} → Call W A → Step W A
  call f s = let (r, w) = f s.world in (r, record s { world = w })

  unfoldable pub note : Action → Step W (Unit {0})
  note action s = (ok tt, record s { trace = action ∷ s.trace })

  abbrev pub refuse : {A : Type 0} → String → Step W A
  refuse message = lift (err (publication_error message))

  abbrev pub refuse_if : Bool → String → Step W (Unit {0})
  refuse_if test message = lift (refuse_when test message)
