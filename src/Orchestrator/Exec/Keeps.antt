-- ===== src/Orchestrator/Exec/Keeps.antt =====
-- Computations of `Orchestrator.Exec` that leave the outcome as it is, and what a rescued one gave.
use leftovers.Base.{◌≡◌, refl, sym, ap, ◌∙◌, ◌⊎◌, inl, inr, Option, none, some}
use leftovers.Orchestrator.Exec.{
  Raised, Flow, done, raised, returned, State, Exec, pure, raise, on_done, on_raised, ◌>>=◌,
  attempt, rescue, call, tell, Call,
}
use leftovers.Orchestrator.Exec.Runs.{Gives, attempt-Gives}

module _ {Float W : Type 0} where
  -- The computation does not touch the outcome, however it ends.
  pub record Keeps {A : Type 0} (m : Exec Float W A) : Type 0 where
    pub kept : (s : State Float W) → (m s).1.outcome ≡ s.outcome

  pub Keeps-call : {A : Type 0} (f : Call W A) → Keeps (call f)
  unfolding call
  Keeps-call f = record { kept = λ s. refl }

  pub Keeps-tell : (f : W → W) → Keeps (tell f)
  unfolding tell
  Keeps-tell f = record { kept = λ s. refl }

  pub Keeps-pure : {A : Type 0} (a : A) → Keeps (pure a)
  Keeps-pure a = record { kept = λ s. refl }

  pub Keeps-bind :
      {A B : Type 0} {m : Exec Float W A} {f : A → Exec Float W B}
      → Keeps m
      → ((a : A) → Keeps (f a))
      → Keeps (m >>= f)
  unfolding ◌>>=◌
  Keeps-bind {A} {B} {m} {f} h g = record { kept = λ s. go (m s) ∙ h.kept s }
    where
      go : (p : Flow A × State Float W) → (on_done f p).1.outcome ≡ p.1.outcome
      go (done a, t) = (g a).kept t
      go (raised e, t) = refl
      go (returned, t) = refl

  pub Keeps-rescue :
      {A : Type 0} (named : Raised → Option A) {m : Exec Float W A}
      → Keeps m
      → Keeps (rescue named m)
  unfolding attempt raise
  Keeps-rescue {A} named {m} h = record { kept = λ s. go (m s) ∙ h.kept s }
    where
      answered :
          (e : Raised) (found : Option A) (t : State Float W)
          → ((elim found as (λ _. Exec Float W A) [ none ↦ raise e | some a ↦ pure a ]) t).1.outcome
            ≡ t.outcome
      answered e none t = refl
      answered e (some a) t = refl

      go :
          (p : Flow A × State Float W)
          → (on_raised
              (λ e. elim (named e) as (λ _. Exec Float W A) [ none ↦ raise e | some a ↦ pure a ])
              p).1.outcome
            ≡ p.1.outcome
      go (done a, t) = refl
      go (raised e, t) = answered e (named e) t
      go (returned, t) = refl

  pub Keeps-Gives :
      {A : Type 0} {m : Exec Float W A} {a : A} {s t : State Float W}
      → Keeps m
      → Gives m s a t
      → t.outcome ≡ s.outcome
  Keeps-Gives {s = s} h gave = sym (ap (λ p. p.1.outcome) gave) ∙ h.kept s

  -- What a rescued step gave: its own value, or the one for the exception that it raised.
  pub rescue-Gives :
      {A : Type 0} {a : A} {t : State Float W} (named : Raised → Option A) (m : Exec Float W A)
      (s : State Float W)
      → Gives (rescue named m) s a t
      → Gives m s a t
        ⊎ ((e : Raised) × (u : State Float W) × (m s ≡ (raised e, u)) × (named e ≡ some a))
  unfolding raise
  rescue-Gives {A} {a} {t} named m s h = elim (attempt-Gives m _ s h) [
    | inl gave ↦ inl gave
    | inr (e, u, broke, handled) ↦ inr (e, u, broke, go e (named e) u handled)
  ]
    where
      go :
          (e : Raised) (found : Option A) (u : State Float W)
          → Gives (elim found [ none ↦ raise e | some b ↦ pure b ]) u a t
          → found ≡ some a
      go e none u h = let flow = ap (λ p. p.0) h in cc
      go e (some b) u h = let flow = ap (λ p. p.0) h in cc
