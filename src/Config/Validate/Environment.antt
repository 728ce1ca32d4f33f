-- ===== src/Config/Validate/Environment.antt =====
-- What `_validate` of src/leftovers/config.py demands of the environment that the coding agent gets.
use leftovers.Base.{
  Bool-cases, is_empty, All, All-false, String, ◌≡◌, inl, inr, true, false, List, [], ◌∷◌,
}
use leftovers.Base.Result.{ok}
use leftovers.Base.Text.{str_eq, one_of, codes, eq_iff}
use leftovers.Config.{AppConfig}
use leftovers.Config.Floats.{Floats}
use leftovers.Config.Ref.{starts, same}
use leftovers.Config.Validate.Agent.{forbidden_env, control_prefixes, is_exposed, exposed}
use leftovers.Config.Validate.Rules.{validate}
use leftovers.Config.Validate.Bounds.{or_false, validate-IsAccepted}
use leftovers.Config.Validate.Publishing.{not-false}
use leftovers.Text.Platform.{Platform}

abbrev pub IsHarmless : String → String → Type 0
IsHarmless token_env name =
    All (λ secret. ¬ (name ≡ secret)) (forbidden_env token_env)
    × All (λ prefix. starts (codes name) (codes prefix) ≡ false) control_prefixes

differs : (s t : String) → str_eq s t ≡ false → ¬ (s ≡ t)
differs s t h same = cc (h, (eq_iff s t).1 same)

each_differs :
    (name : String) (secrets : List String)
    → All (λ secret. str_eq name secret ≡ false) secrets
    → All (λ secret. ¬ (name ≡ secret)) secrets
each_differs name [] h = tt
each_differs name (s ∷ secrets) h = (differs name s h.0, each_differs name secrets h.1)

IsHarmless-of :
    (token_env name : String) → is_exposed token_env name ≡ false → IsHarmless token_env name
IsHarmless-of token_env name h =
    let (known, prefixes) = or_false (one_of name (forbidden_env token_env)) _ h in
    (
      each_differs name (forbidden_env token_env)
          (All-false (str_eq name) (forbidden_env token_env) known),
      All-false (λ prefix. starts (codes name) (codes prefix)) control_prefixes prefixes,
    )

none_exposed :
    (token_env : String) (names : List String)
    → is_empty (exposed token_env names) ≡ true
    → All (IsHarmless token_env) names
none_exposed token_env [] h = tt
none_exposed token_env (name ∷ names) h = elim (Bool-cases (is_exposed token_env name)) [
  | inl e ↦ cc (rw e at h)
  | inr e ↦ (IsHarmless-of token_env name e, none_exposed token_env names (rw e at h))
]

-- No variable that an accepted configuration passes on to the coding agent is one of the GitHub
-- tokens, the SSH agent's socket or the variable with the controller's own token, and none has a
-- prefix by which Docker, Podman, containers or Kubernetes are controlled.
pub validate-IsHarmless :
    (platform : Platform) (floats : Floats) (config : AppConfig floats.Float)
    → validate platform floats config ≡ ok tt
    → All (IsHarmless config.github.token_env) config.agent.pass_environment
validate-IsHarmless platform floats config h =
    none_exposed config.github.token_env config.agent.pass_environment
      (not-false _ (validate-IsAccepted platform floats config h).credential.0)
