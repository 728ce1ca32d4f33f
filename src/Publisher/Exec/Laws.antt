-- ===== src/Publisher/Exec/Laws.antt =====
-- What the trace of a step satisfies when the step gives a value, and when it raises
-- (src/leftovers/publisher.py).
use leftovers.Base.{if◌then◌else◌, ◌≡◌, refl, Bool, true, false, List, ◌∷◌}
use leftovers.Publisher.{PublishError, publication_error, library_error, Published}
use leftovers.Publisher.Exec.{
  Action, State, Step, Call, lift, go_on, on_refusal, ◌>>=◌, attempt, call, note,
}
use leftovers.Base.Result.{err, ok}

abbrev pub After :
    {W A : Type 0}
    → (List Action → Type 0)
    → (A → List Action → Type 0)
    → Published A × State W
    → Type 0
After I Q (ok a, t) = Q a t.trace
After I Q (err e, t) = I t.trace

-- From a trace with `P`, the step gives a value and a trace with `Q`, or it raises and leaves `I`.
pub record Safe {W A : Type 0} (I P : List Action → Type 0) (m : Step W A)
    (Q : A → List Action → Type 0) : Type 0 where
  pub holds : (s : State W) → P s.trace → After I Q (m s)

module _ {W : Type 0} {I P : List Action → Type 0} where
  pub Safe-bind :
      {A B : Type 0} {Q : A → List Action → Type 0} {R : B → List Action → Type 0} {m : Step W A}
      {f : A → Step W B}
      → Safe I P m Q
      → ((a : A) → Safe I (Q a) (f a) R)
      → Safe I P (m >>= f) R
  unfolding ◌>>=◌
  Safe-bind {A} {B} {Q} {R} {m} {f} h g = record { holds = λ s p. flow_case (m s) (h.holds s p) }
    where
      flow_case : (r : Published A × State W) → After I Q r → After I R (go_on f r)
      flow_case (ok a, t) q = (g a).holds t q
      flow_case (err e, t) q = q

  pub Safe-attempt :
      {A : Type 0} {Q : A → List Action → Type 0} {m : Step W A} {handler : PublishError → Step W A}
      → Safe I P m Q
      → ((e : PublishError) → Safe I I (handler e) Q)
      → Safe I P (attempt m handler) Q
  unfolding attempt
  Safe-attempt {A} {Q} {m} {handler} h g = record { holds = λ s p. flow_case (m s) (h.holds s p) }
    where
      flow_case : (r : Published A × State W) → After I Q r → After I Q (on_refusal handler r)
      flow_case (ok a, t) q = q
      flow_case (err (publication_error message), t) q = (g (publication_error message)).holds t q
      flow_case (err library_error, t) q = q

  -- A step that writes nothing, in front of another.
  pub Safe-lift :
      {A B : Type 0} {R : B → List Action → Type 0} (r : Published A) {f : A → Step W B}
      → ((t : List Action) → P t → I t)
      → ((a : A) → r ≡ ok a → Safe I P (f a) R)
      → Safe I P (lift r >>= f) R
  unfolding ◌>>=◌ lift
  Safe-lift (err e) {f} weaken g = record { holds = λ s p. weaken s.trace p }
  Safe-lift (ok a) {f} weaken g = record { holds = λ s p. (g a refl).holds s p }

  pub Safe-call :
      {A B : Type 0} {R : B → List Action → Type 0} (c : Call W A) {f : A → Step W B}
      → ((t : List Action) → P t → I t)
      → ((a : A) → Safe I P (f a) R)
      → Safe I P (call c >>= f) R
  unfolding ◌>>=◌ call
  Safe-call {A} {B} {R} c {f} weaken g = record { holds = λ s p. flow_case s.trace (c s.world) p }
    where
      flow_case :
          (t : List Action) (r : Published A × W)
          → P t
          → After I R (go_on f (r.0, record { world = r.1; trace = t }))
      flow_case t (ok a, w) p = (g a).holds (record { world = w; trace = t }) p
      flow_case t (err e, w) p = weaken t p

  -- The same, where the continuation knows in which world the call gave its answer.
  pub Safe-answer :
      {A B : Type 0} {R : B → List Action → Type 0} (c : Call W A) {f : A → Step W B}
      → ((t : List Action) → P t → I t)
      → ((a : A) (w : W) → (c w).0 ≡ ok a → Safe I P (f a) R)
      → Safe I P (call c >>= f) R
  unfolding ◌>>=◌ call
  Safe-answer {A} {B} {R} c {f} weaken g = record {
    holds = λ s p. flow_case s.world s.trace (c s.world) refl p;
  }
    where
      flow_case :
          (w : W) (t : List Action) (r : Published A × W)
          → (c w).0 ≡ r.0
          → P t
          → After I R (go_on f (r.0, record { world = r.1; trace = t }))
      flow_case w t (ok a, u) h p = (g a w h).holds (record { world = u; trace = t }) p
      flow_case w t (err e, u) h p = weaken t p

  pub Safe-last :
      {A : Type 0} (c : Call W A) → ((t : List Action) → P t → I t) → Safe I P (call c) (λ _. I)
  unfolding call
  Safe-last {A} c weaken = record { holds = λ s p. flow_case s.trace (c s.world) p }
    where
      flow_case :
          (t : List Action) (r : Published A × W)
          → P t
          → After I (λ _. I) (r.0, record { world = r.1; trace = t })
      flow_case t (ok a, w) p = weaken t p
      flow_case t (err e, w) p = weaken t p

  pub Safe-end :
      {A : Type 0} {Q : A → List Action → Type 0} (r : Published A)
      → ((t : List Action) → P t → I t)
      → ((a : A) (t : List Action) → r ≡ ok a → P t → Q a t)
      → Safe {W = W} I P (lift r) Q
  unfolding lift
  Safe-end (err e) weaken g = record { holds = λ s p. weaken s.trace p }
  Safe-end (ok a) weaken g = record { holds = λ s p. g a s.trace refl p }

  pub Safe-note :
      {Q : Unit {0} → List Action → Type 0} (action : Action)
      → ((t : List Action) → P t → Q tt (action ∷ t))
      → Safe {W = W} I P (note action) Q
  unfolding note
  Safe-note action g = record { holds = λ s p. g s.trace p }

  pub Safe-if :
      {A : Type 0} {Q : A → List Action → Type 0} {m k : Step W A} (b : Bool)
      → Safe I P m Q
      → Safe I P k Q
      → Safe I P (if b then m else k) Q
  Safe-if true h g = h
  Safe-if false h g = g

  -- A fact that does not depend on the trace.
  pub Safe-know :
      {A : Type 0} {F : Type 0} {Q : A → List Action → Type 0} {m : Step W A}
      → (F → Safe I P m Q)
      → Safe I (λ t. F × P t) m Q
  Safe-know g = record { holds = λ s p. (g p.0).holds s p.1 }
