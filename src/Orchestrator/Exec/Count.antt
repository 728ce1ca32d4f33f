-- ===== src/Orchestrator/Exec/Count.antt =====
-- How many agents a sequence of calls may start: bounds that add up along a sequence.
use leftovers.Models.{RunOutcome}
use leftovers.Base.{if◌then◌else◌, ℕ, ◌+◌, ◌≤◌, ◌≡◌, Bool, true, false, List, [], ◌∷◌, ◌++◌, arith}
use leftovers.Orchestrator.Exec.{
  Message, Raised, Flow, done, raised, returned, Action, agent, State, Exec, pure, raise, on_done,
  on_raised, ◌>>=◌, attempt, raise_when, set_outcome, log, call, tell,
}

abbrev pub is_agent : Action → Bool
is_agent (agent stage) = true
is_agent _ = false

unfoldable pub agents : List Action → ℕ
agents [] = 0
agents (a ∷ actions) = (if is_agent a then 1 else 0) + agents actions

pub agents-append : (xs ys : List Action) → agents (xs ++ ys) ≡ agents xs + agents ys
unfolding agents
agents-append [] ys = omega arith
agents-append (x ∷ xs) ys = omega (arith, agents-append xs ys)

module _ {Float W : Type 0} where
  -- The computation starts at most `n` agents, however it ends.
  pub record Starts {A : Type 0} (n : ℕ) (m : Exec Float W A) : Type 0 where
    pub bound : (s : State Float W) → agents (m s).1.calls ≤ agents s.calls + n

  pub Starts-bind :
      {A B : Type 0} (n k : ℕ) {m : Exec Float W A} {f : A → Exec Float W B}
      → Starts n m
      → ((a : A) → Starts k (f a))
      → Starts (n + k) (m >>= f)
  unfolding ◌>>=◌
  Starts-bind {A} n k {m} {f} h g = record { bound = λ s. flow_case s (m s) (h.bound s) }
    where
      flow_case :
          (s : State Float W) (p : Flow A × State Float W)
          → agents p.1.calls ≤ agents s.calls + n
          → agents (on_done f p).1.calls ≤ agents s.calls + (n + k)
      flow_case s (done a, t) le = omega (arith, (g a).bound t)
      flow_case s (raised e, t) le = omega arith
      flow_case s (returned, t) le = omega arith

  pub Starts-attempt :
      {A : Type 0} {n : ℕ} {m : Exec Float W A} {handler : Raised → Exec Float W A}
      → Starts n m
      → ((e : Raised) → Starts 0 (handler e))
      → Starts n (attempt m handler)
  unfolding attempt
  Starts-attempt {A} {n} {m} {handler} h g = record { bound = λ s. flow_case s (m s) (h.bound s) }
    where
      flow_case :
          (s : State Float W) (p : Flow A × State Float W)
          → agents p.1.calls ≤ agents s.calls + n
          → agents (on_raised handler p).1.calls ≤ agents s.calls + n
      flow_case s (done a, t) le = omega arith
      flow_case s (raised e, t) le = omega (arith, (g e).bound t)
      flow_case s (returned, t) le = omega arith

  pub Starts-more : {A : Type 0} {n k : ℕ} {m : Exec Float W A} → n ≤ k → Starts n m → Starts k m
  Starts-more le h = record { bound = λ s. omega (arith, h.bound s) }

  pub Starts-call : {A : Type 0} (f : W → Flow A × W) → Starts 0 (call f)
  unfolding call
  Starts-call f = record { bound = λ s. omega arith }

  pub Starts-log : (action : Action) → Starts (if is_agent action then 1 else 0) (log action)
  unfolding agents log
  Starts-log action = record { bound = λ s. omega (arith, agents-append s.calls (action ∷ [])) }

  pub Starts-tell : (f : W → W) → Starts 0 (tell f)
  unfolding tell
  Starts-tell f = record { bound = λ s. omega arith }

  pub Starts-set :
      (f : RunOutcome Float Message → RunOutcome Float Message) → Starts 0 (set_outcome f)
  unfolding set_outcome
  Starts-set f = record { bound = λ s. omega arith }

  pub Starts-pure : {A : Type 0} (a : A) → Starts 0 (pure a)
  Starts-pure a = record { bound = λ s. omega arith }

  pub Starts-raise : {A : Type 0} (e : Raised) → Starts 0 (raise {A = A} e)
  unfolding raise
  Starts-raise e = record { bound = λ s. omega arith }

  pub Starts-raise_when : (test : Bool) (e : Raised) → Starts 0 (raise_when test e)
  unfolding raise_when
  Starts-raise_when test e = record { bound = λ s. omega arith }

  pub Starts-if :
      {A : Type 0} {n : ℕ} {m k : Exec Float W A} (b : Bool)
      → Starts n m
      → Starts n k
      → Starts n (if b then m else k)
  Starts-if true h g = h
  Starts-if false h g = g

  -- A step that starts no agent.
  pub Starts-after :
      {A B : Type 0} {k : ℕ} {m : Exec Float W A} {f : A → Exec Float W B}
      → Starts 0 m
      → ((a : A) → Starts k (f a))
      → Starts k (m >>= f)
  Starts-after {k = k} h g = Starts-more (omega arith) (Starts-bind 0 k h g)
