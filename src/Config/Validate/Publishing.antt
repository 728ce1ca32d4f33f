-- ===== src/Config/Validate/Publishing.antt =====
-- What `_validate` of src/leftovers/config.py demands before pull requests may be opened, and of the
-- environment that the coding agent receives.
use leftovers.Base.{
  unless_iff, flip_iff, is_empty, All, ℕ, suc, String, ◌≡◌, refl, Bool, true, false, not, ◌&&◌,
  Option, none, some, List, [], ◌∷◌,
}
use leftovers.Base.Result.{ok}
use leftovers.Base.Int.{ℤ, pos, ◌≤ℤ◌}
use leftovers.Base.Text.{codes, is_blank, eq_iff}
use leftovers.Config.{RepositoryConfig, AppConfig}
use leftovers.Config.Floats.{Floats}
use leftovers.Config.Validate.{below, if_given}
use leftovers.Config.Validate.Service.{is_none}
use leftovers.Config.Validate.Rules.{is_missing, repository_tests, check_repositories, validate}
use leftovers.Config.Validate.Bounds.{below-false, or_false, then_first, validate-IsAccepted}
use leftovers.Text.Platform.{Platform}
use leftovers.Text.Patterns.{pinned_image}

abbrev pub IsCurated : {Float : Type 0} → RepositoryConfig Float → Type 0
IsCurated repository =
    (is_empty repository.allow_labels ≡ false) × (is_empty repository.allowed_licenses ≡ false)

given_draft : (draft b : Bool) → draft ≡ true → (draft && b) ≡ false → b ≡ false
given_draft draft b h k = (unless_iff draft b).0 k h

pub not-false : (b : Bool) → not b ≡ false → b ≡ true
not-false b = (flip_iff b).0

IsCurated-repositories :
    {Float : Type 0} (index : ℕ) (repositories : List (RepositoryConfig Float))
    → check_repositories true index repositories ≡ ok tt
    → All IsCurated repositories
IsCurated-repositories index [] h = tt
IsCurated-repositories index (r ∷ rs) h =
    let (mine, rest) = then_first (repository_tests true index r) _ h in
    ((mine.1.1.1.1.0, mine.1.1.1.1.1.1.0), IsCurated-repositories (suc index) rs rest)

-- An optional text that the source reads as true, and a user id of one or more.
abbrev pub IsNamed : Option String → Type 0
IsNamed login = (name : String) × (login ≡ some name) × (is_blank name ≡ false)

abbrev pub IsUser : Option ℤ → Type 0
IsUser id = (n : ℤ) × (id ≡ some n) × (pos 1 ≤ℤ n)

IsNamed-of : (login : Option String) → is_missing login ≡ false → IsNamed login
IsNamed-of none h = cc
IsNamed-of (some name) h = (name, refl, h)

IsUser-of : (id : Option ℤ) → is_none id ≡ false → if_given (λ n. below n 1) id ≡ false → IsUser id
IsUser-of none h k = cc
IsUser-of (some n) h k = (n, refl, below-false n 1 k)

abbrev pub IsPublishable : {Float : Type 0} → AppConfig Float → Type 0
IsPublishable config =
    (config.publication.draft ≡ true)
    × (config.agent.backend ≡ "container")
    × (pinned_image (codes config.sandbox.image) ≡ true)
    × IsNamed config.publication.expected_login
    × IsUser config.publication.expected_user_id
    × All IsCurated config.repositories

module _ (platform : Platform) (floats : Floats) (config : AppConfig floats.Float) where
  -- An accepted configuration in the publishing mode `draft-pr` opens drafts only, runs its agent in
  -- a container with an image pinned by digest, names the GitHub login and user id that must be
  -- publishing, and has allowed labels and licenses for every repository.
  pub validate-IsPublishable :
      validate platform floats config ≡ ok tt
      → config.publication.mode ≡ "draft-pr"
      → IsPublishable config
  validate-IsPublishable h mode =
      let accepted = validate-IsAccepted platform floats config h in
      let draft = (eq_iff config.publication.mode "draft-pr").1 mode in
      let modes = accepted.mode in
      let account = accepted.account in
      let (login, id) = or_false _ _ (given_draft _ _ draft account.1.1.1.0) in
      (
        not-false _ (given_draft _ _ draft modes.1.1.0),
        (eq_iff config.agent.backend "container").0
            (not-false _ (given_draft _ _ draft modes.1.1.1.0)),
        not-false _ (given_draft _ _ draft modes.1.1.1.1.0),
        IsNamed-of config.publication.expected_login login,
        IsUser-of config.publication.expected_user_id id account.1.1.0,
        IsCurated-repositories 0 config.repositories (rw draft at accepted.repositories),
      )
