-- ===== src/Tests/Configs.antt =====
-- The theorems on the validation of the configuration, on a configuration that is accepted.
use leftovers.Text.Regex.{full_match}
use leftovers.Base.{All, ◌≡◌, refl, [], ◌∷◌}
use leftovers.Base.Result.{ok}
use leftovers.Config.Ref.{is_space, is_control, safe_git_ref}
use leftovers.Config.Validate.Rules.{validate}
use leftovers.Config.Validate.Bounds.{
  HasBudgetBounds, HasAgentBounds, HasPublicationBounds, HasChangeBounds, validate-bounds,
}
use leftovers.Config.Validate.Publishing.{IsPublishable, validate-IsPublishable}
use leftovers.Config.Validate.Environment.{IsHarmless, validate-IsHarmless}
use leftovers.Text.Patterns.{environment_name, github_login, safe_image, pinned_image}
use leftovers.Tests.Samples.{whole_floats, plain, budget, policy, agent, publication, config}

pub config_accepted : validate plain whole_floats config ≡ ok tt
unfolding validate safe_git_ref environment_name github_login pinned_image safe_image is_control
    is_space full_match
config_accepted = refl

validate-bounds_example :
    HasBudgetBounds whole_floats budget
    × HasAgentBounds agent
    × HasPublicationBounds publication
    × HasChangeBounds policy
validate-bounds_example = validate-bounds plain whole_floats config config_accepted

validate-IsPublishable_example : IsPublishable config
validate-IsPublishable_example =
    validate-IsPublishable plain whole_floats config config_accepted refl

validate-IsHarmless_example : All (IsHarmless "LEFTOVERS_TOKEN") ("LANG" ∷ [])
validate-IsHarmless_example = validate-IsHarmless plain whole_floats config config_accepted
