-- ===== src/Orchestrator/Exec.antt =====
-- A call of the orchestrator: it changes the run's outcome and the world, and it gives a value,
-- raises, or returns the outcome from the whole cycle. What was changed stays changed after a raise.
pub mod Count
pub mod Runs
pub mod Keeps
use leftovers.Policy.Candidate.{GateFailure}
use leftovers.Base.{if◌then◌else◌, ℕ, String, Bool, Option, none, some, List, [], ◌∷◌, ◌++◌}
use leftovers.Models.{RunOutcome}
use leftovers.Models.Stages.{RunStage, FailureCode}
use leftovers.Policy.Failure.{DiffFailure}

-- The texts that the code composes for `outcome.message`. `also` is `f"{a}; additionally, {b}"`, and
-- `unproven` names what the cleanup could not prove: the containers, the workspace with its error.
pub data Message : Type 0 where
  empty : Message
  fixed : String → Message
  gate : List GateFailure → Message
  diff : List DiffFailure → Message
  mutated : List DiffFailure → Message
  unproven : Bool → Bool → String → Message
  also : Message → Message → Message

-- The exceptions that the controller tells apart, each with its text: `RunAbort`, `RunnerError` and
-- whether its text holds "not installed", its subclass `AgentOutputError`, `GitHubError` and whether
-- it is retryable. `other` is any exception that no handler names.
pub data Raised : Type 0 where
  run_abort : FailureCode → Message → RunStage → Raised
  runner_error : Bool → String → Raised
  github_error : Bool → String → Raised
  agent_output_error workspace_error publication_error : String → Raised
  os_error sqlite_error subprocess_error : String → Raised
  budget_error state_policy_error other : String → Raised

-- What a call did: `returned` is an early `return outcome` of `_run_cycle`.
pub data Flow (A : Type 0) : Type 0 where
  done : A → Flow A
  raised : Raised → Flow A
  returned : Flow A

-- The calls that start work of an agent, run commands, or write to GitHub, in order. The
-- stage of the commands is `setup`, or `verify-n` of a cycle n.
pub data Action : Type 0 where
  agent : String → Action
  commands : Option ℕ → Action
  slot publish : Action

pub record State (Float W : Type 0) : Type 0 where
  pub world : W
  pub outcome : RunOutcome Float Message
  pub calls : List Action

abbrev pub Exec : Type 0 → Type 0 → Type 0 → Type 0
Exec Float W A = State Float W → Flow A × State Float W

module _ {Float W : Type 0} where
  abbrev pub pure : {A : Type 0} → A → Exec Float W A
  pure a s = (done a, s)

  unfoldable pub raise : {A : Type 0} → Raised → Exec Float W A
  raise e s = (raised e, s)

  unfoldable pub return_outcome : {A : Type 0} → Exec Float W A
  return_outcome s = (returned, s)

  -- What follows a value, a raise, and whatever came before the last part.
  abbrev pub on_done :
      {A B : Type 0} → (A → Exec Float W B) → Flow A × State Float W → Flow B × State Float W
  on_done f (done a, t) = f a t
  on_done f (raised e, t) = (raised e, t)
  on_done f (returned, t) = (returned, t)

  abbrev pub on_raised :
      {A : Type 0} → (Raised → Exec Float W A) → Flow A × State Float W → Flow A × State Float W
  on_raised handler (done a, t) = (done a, t)
  on_raised handler (raised e, t) = handler e t
  on_raised handler (returned, t) = (returned, t)

  abbrev pub after_last :
      {A : Type 0} → Flow A → Flow (Unit {0}) × State Float W → Flow A × State Float W
  after_last flow (done _, t) = (flow, t)
  after_last flow (raised e, t) = (raised e, t)
  after_last flow (returned, t) = (returned, t)

  infixl 10 ◌>>=◌ ◌>>◌
  unfoldable pub ◌>>=◌ : {A B : Type 0} → Exec Float W A → (A → Exec Float W B) → Exec Float W B
  ◌>>=◌ m f s = on_done f (m s)

  abbrev pub ◌>>◌ : {A B : Type 0} → Exec Float W A → Exec Float W B → Exec Float W B
  m >> k = m >>= λ _. k

  -- `try: m except ...`: the handler raises again what it does not name.
  unfoldable pub attempt :
      {A : Type 0} → Exec Float W A → (Raised → Exec Float W A) → Exec Float W A
  attempt m handler s = on_raised handler (m s)

  -- A handler that gives a value for the exceptions that it names, and passes on the others.
  abbrev pub rescue : {A : Type 0} → (Raised → Option A) → Exec Float W A → Exec Float W A
  rescue named m = attempt m λ (e : Raised). elim (named e) [ none ↦ raise e | some a ↦ pure a ]

  -- `try: m finally: last`: an exception of the last part replaces what came before.
  unfoldable pub finally : {A : Type 0} → Exec Float W A → Exec Float W (Unit {0}) → Exec Float W A
  finally m last s = let before = m s in after_last before.0 (last before.1)

  -- `if test: raise e`.
  unfoldable pub raise_when : Bool → Raised → Exec Float W (Unit {0})
  raise_when test e s = (if test then raised e else done tt, s)

  unfoldable pub get_outcome : Exec Float W (RunOutcome Float Message)
  get_outcome s = (done s.outcome, s)

  unfoldable pub set_outcome :
      (RunOutcome Float Message → RunOutcome Float Message) → Exec Float W (Unit {0})
  set_outcome f s = (done tt, record s { outcome = f s.outcome })

  -- `outcome.stage = stage`.
  abbrev pub set_stage : RunStage → Exec Float W (Unit {0})
  set_stage to = set_outcome (λ o. record o { stage = to })

  unfoldable pub log : Action → Exec Float W (Unit {0})
  log action s = (done tt, record s { calls = s.calls ++ action ∷ [] })

  -- A call of the world outside, and one that never raises.
  unfoldable pub call : {A : Type 0} → (W → Flow A × W) → Exec Float W A
  call f s = let (r, w) = f s.world in (r, record s { world = w })

  unfoldable pub tell : (W → W) → Exec Float W (Unit {0})
  tell f s = (done tt, record s { world = f s.world })

abbrev pub Call : Type 0 → Type 0 → Type 0
Call W A = W → Flow A × W
