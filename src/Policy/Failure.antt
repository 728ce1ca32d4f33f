-- ===== src/Policy/Failure.antt =====
-- The failures that the gates report, with the facts that their messages show. Two messages are
-- equal exactly if these values are, so that `dict.fromkeys` keeps the same ones.
use leftovers.Base.{ℕ, ◌≡◌, refl, ◌↔◌, Bool, true, false, List, [], ◌∷◌, ℕ_discrete}
use leftovers.Base.Int.{ℤ}

-- A path as Git prints it, in code points; a byte that is no UTF-8 is a surrogate.
abbrev pub FileName : Type 0
FileName = List ℕ

-- Why `_refused_inspection` gives up on a workspace.
pub data Refusal : Type 0 where
  unsafe_configuration too_slow unbounded_output output_limit : Refusal
  untracked_paths changed_paths : Refusal

pub data DiffFailure : Type 0 where
  symlink_path submodule_link non_regular : FileName → DiffFailure
  exec_added exec_changed : FileName → DiffFailure
  refused : Refusal → DiffFailure
  no_changes : DiffFailure
  too_many_files too_many_lines : ℕ → ℤ → DiffFailure
  patch_too_large : ℤ → DiffFailure
  invalid_utf8 : DiffFailure
  path_not_utf8 control_character : FileName → DiffFailure
  git_directory : DiffFailure
  forbidden_path dependency_changed : FileName → DiffFailure
  binary_change symlink_change submodule_change exec_change credential : DiffFailure

unfoldable pub List-discrete {ℓ} : {A : Type ℓ} → Discrete A → Discrete (List A)
List-discrete d = hlevel d

pub Refusal-discrete : Discrete Refusal
Refusal-discrete = hlevel

unfoldable pub DiffFailure-discrete : Discrete DiffFailure
DiffFailure-discrete = hlevel (ℕ_discrete, Refusal-discrete, List-discrete)

module _ {ℓ} {A : Type ℓ} (d : Discrete A) where
  -- `x in seen`.
  pub seen_in : A → List A → Bool
  seen_in x [] = false
  seen_in x (y ∷ seen) = elim (d x y) [ yes _ ↦ true | no _ ↦ seen_in x seen ]

  pub dedup_from : List A → List A → List A
  dedup_from seen [] = []
  dedup_from seen (x ∷ xs) = elim (seen_in x seen) [
    | true ↦ dedup_from seen xs
    | false ↦ x ∷ dedup_from (x ∷ seen) xs
  ]

  -- `tuple(dict.fromkeys(xs))`: the first occurrence of each.
  unfoldable pub dedup : List A → List A
  unfolding seen_in dedup_from
  dedup xs = dedup_from [] xs

  -- Nothing is lost by removing duplicates unless there was nothing.
  pub dedup-eq-nil : (xs : List A) → (dedup xs ≡ []) ↔ (xs ≡ [])
  unfolding dedup
  dedup-eq-nil [] = (λ h. refl, λ h. refl)
  dedup-eq-nil (x ∷ xs) = (λ h. cc, λ h. cc)
