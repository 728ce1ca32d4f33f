-- ===== src/Config/Validate/Sandbox.antt =====
-- `_validate` of src/leftovers/config.py: the sandbox.
use leftovers.Base.{not, ◌&&◌, ◌||◌, [], ◌∷◌}
use leftovers.Base.Int.{pos}
use leftovers.Base.Text.{one_of, codes}
use leftovers.Config.{SandboxConfig}
use leftovers.Config.Floats.{Floats}
use leftovers.Config.Ref.{within}
use leftovers.Config.Validate.{invalid, Tests, outside, below}
use leftovers.Text.Patterns.{safe_image, pinned_image}

module _ (floats : Floats) where
  abbrev pub sandbox_tests : SandboxConfig floats.Float → Tests
  sandbox_tests sandbox =
      let zero = floats.of_int (pos 0) in
      (
        not (one_of sandbox.runtime ("docker" ∷ "podman" ∷ [])),
        invalid "sandbox.runtime must be docker or podman",
      )
      ∷ (
        not (one_of sandbox.network ("none" ∷ "bridge" ∷ [])),
        invalid "sandbox.network must be none or bridge",
      )
      ∷ (
        floats.le sandbox.cpus zero || below sandbox.pids_limit 1,
        invalid "sandbox CPU and PID limits must be positive",
      )
      ∷ (below sandbox.timeout_seconds 1, invalid "sandbox.timeout_seconds must be positive")
      ∷ (
        not (safe_image (codes sandbox.image)),
        invalid "sandbox.image is not a safe OCI image reference",
      )
      ∷ (
        within (codes sandbox.image) (codes "@sha256:") && not (pinned_image (codes sandbox.image)),
        invalid "sandbox.image has an invalid SHA-256 digest",
      )
      ∷ (
        not (
            floats.lt zero sandbox.cpus
            && floats.le sandbox.cpus (floats.of_int (pos 64))
            && not (outside 1 4096 sandbox.pids_limit)
            && not (outside 1 7200 sandbox.timeout_seconds)),
        invalid "sandbox resource limits are outside conservative bounds",
      )
      ∷ []
