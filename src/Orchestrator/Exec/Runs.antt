-- ===== src/Orchestrator/Exec/Runs.antt =====
-- What a computation of `Orchestrator.Exec` that gave a value has done: each law takes one step off
-- the front, with the value of the step and the state that the rest starts in.
use leftovers.Base.{if◌then◌else◌, ◌≡◌, refl, ap, ◌⊎◌, inl, inr, Bool, true, false, [], ◌∷◌, ◌++◌}
use leftovers.Models.{RunOutcome}
use leftovers.Orchestrator.Exec.{
  Message, Raised, Flow, done, raised, returned, Action, State, Exec, pure, raise, on_done,
  on_raised, ◌>>=◌, attempt, raise_when, get_outcome, set_outcome, log, call, tell, Call,
}

module _ {Float W : Type 0} where
  -- The computation gives this value and ends in this state.
  abbrev pub Gives : {A : Type 0} → Exec Float W A → State Float W → A → State Float W → Type 0
  Gives m s a t = m s ≡ (done a, t)

  module _ {A B : Type 0} {b : B} {t : State Float W} where
    on_done-Gives :
        (next : A → Exec Float W B) (p : Flow A × State Float W)
        → on_done next p ≡ (done b, t)
        → (a : A) × (p.0 ≡ done a) × (Gives (next a) p.1 b t)
    on_done-Gives next (done a, u) h = (a, refl, h)
    on_done-Gives next (raised e, u) h = let flow = ap (λ p. p.0) h in cc
    on_done-Gives next (returned, u) h = let flow = ap (λ p. p.0) h in cc

    -- A call answered, and the rest started in the world after it.
    pub call-Gives :
        (f : Call W A) (next : A → Exec Float W B) (s : State Float W)
        → Gives (call f >>= next) s b t
        → (a : A) × ((f s.world).0 ≡ done a)
          × (Gives (next a) (record s { world = (f s.world).1 }) b t)
    unfolding ◌>>=◌ call
    call-Gives f next s h = on_done-Gives next (call f s) h

    pub bind-Gives :
        (m : Exec Float W A) (next : A → Exec Float W B) (s : State Float W)
        → Gives (m >>= next) s b t
        → (a : A) × (u : State Float W) × (Gives m s a u) × (Gives (next a) u b t)
    unfolding ◌>>=◌
    bind-Gives m next s h =
        let (a, flow, rest) = on_done-Gives next (m s) h in (a, (m s).1, cc, rest)

    pub assoc-Gives :
        {C : Type 0} (m : Exec Float W C) (f : C → Exec Float W A) (next : A → Exec Float W B)
        (s : State Float W)
        → Gives ((m >>= f) >>= next) s b t
        → Gives (m >>= λ c. f c >>= next) s b t
    unfolding ◌>>=◌
    assoc-Gives {C} m f next s h = go (m s) h
      where
        go :
            (p : Flow C × State Float W)
            → on_done next (on_done f p) ≡ (done b, t)
            → on_done (λ c u. on_done next (f c u)) p ≡ (done b, t)
        go (done c, u) h = h
        go (raised e, u) h = h
        go (returned, u) h = h

  module _ {B : Type 0} {b : B} {t : State Float W} where
    -- The steps that cannot fail, as what they leave to the rest.
    pub set-Gives :
        (f : RunOutcome Float Message → RunOutcome Float Message) (next : Unit {0} → Exec Float W B)
        (s : State Float W)
        → Gives (set_outcome f >>= next) s b t
        → Gives (next tt) (record s { outcome = f s.outcome }) b t
    unfolding ◌>>=◌ set_outcome
    set-Gives f next s h = h

    pub get-Gives :
        (next : RunOutcome Float Message → Exec Float W B) (s : State Float W)
        → Gives (get_outcome >>= next) s b t
        → Gives (next s.outcome) s b t
    unfolding ◌>>=◌ get_outcome
    get-Gives next s h = h

    pub tell-Gives :
        (f : W → W) (next : Unit {0} → Exec Float W B) (s : State Float W)
        → Gives (tell f >>= next) s b t
        → Gives (next tt) (record s { world = f s.world }) b t
    unfolding ◌>>=◌ tell
    tell-Gives f next s h = h

    pub log-Gives :
        (action : Action) (next : Unit {0} → Exec Float W B) (s : State Float W)
        → Gives (log action >>= next) s b t
        → Gives (next tt) (record s { calls = s.calls ++ action ∷ [] }) b t
    unfolding ◌>>=◌ log
    log-Gives action next s h = h

  pub raise_when-Gives :
      {B : Type 0} {b : B} {t : State Float W} (test : Bool) (e : Raised)
      (next : Unit {0} → Exec Float W B) (s : State Float W)
      → Gives (raise_when test e >>= next) s b t
      → (test ≡ false) × (Gives (next tt) s b t)
  unfolding ◌>>=◌ raise_when
  raise_when-Gives true e next s h = let flow = ap (λ p. p.0) h in cc
  raise_when-Gives false e next s h = (refl, h)

  pub raise_when-done :
      (test : Bool) (e : Raised) (s t : State Float W)
      → Gives (raise_when test e) s tt t
      → (test ≡ false) × (s ≡ t)
  unfolding raise_when
  raise_when-done true e s t h = let flow = ap (λ p. p.0) h in cc
  raise_when-done false e s t h = (refl, ap (λ p. p.1) h)

  pub pure-Gives :
      {A : Type 0} (a b : A) (s t : State Float W) → Gives (pure a) s b t → (a ≡ b) × (s ≡ t)
  pure-Gives a b s t h = let flow = ap (λ p. p.0) h in (cc, ap (λ p. p.1) h)

  -- The value is that of the body, or of the handler of an exception that the body raised.
  pub attempt-Gives :
      {A : Type 0} {a : A} {t : State Float W} (m : Exec Float W A)
      (handler : Raised → Exec Float W A) (s : State Float W)
      → Gives (attempt m handler) s a t
      → Gives m s a t
        ⊎ ((e : Raised) × (u : State Float W) × (m s ≡ (raised e, u)) × Gives (handler e) u a t)
  unfolding attempt
  attempt-Gives {A} {a} {t} m handler s h = go (m s) h
    where
      go :
          (p : Flow A × State Float W)
          → on_raised handler p ≡ (done a, t)
          → (p ≡ (done a, t))
            ⊎ ((e : Raised) × (u : State Float W) × (p ≡ (raised e, u)) × Gives (handler e) u a t)
      go (done b, u) h = inl h
      go (raised e, u) h = inr (e, u, refl, h)
      go (returned, u) h = inl h

  pub raise-Gives :
      {A : Type 0} {a : A} {t : State Float W} (e : Raised) (s : State Float W)
      → ¬ Gives (raise e) s a t
  unfolding raise
  raise-Gives e s h = let flow = ap (λ p. p.0) h in cc

  pub if-Gives :
      {A : Type 0} {a : A} {t : State Float W} (test : Bool) (m k : Exec Float W A)
      (s : State Float W)
      → Gives (if test then m else k) s a t
      → ((test ≡ true) × Gives m s a t) ⊎ ((test ≡ false) × Gives k s a t)
  if-Gives true m k s h = inl (refl, h)
  if-Gives false m k s h = inr (refl, h)
