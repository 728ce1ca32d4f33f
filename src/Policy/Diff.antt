-- ===== src/Policy/Diff.antt =====
-- `DiffInspection` and `diff_gate` of src/leftovers/policy.py: what a patch may change.
pub mod Laws
use leftovers.Base.{
  ltb, leb, if◌then◌else◌, length, any, is_empty, reports, ℕ, ◌+◌, String, Bool, ◌&&◌, ◌||◌, Option,
  none, some, List, [], ◌∷◌, ◌++◌,
}
use leftovers.Base.Int.{ℤ, pos, ltb_ℤ, eqb_ℤ, min_ℤ}
use leftovers.Base.Text.{codes}
use leftovers.Config.{PolicyConfig, RepositoryConfig}
use leftovers.Config.Mandatory.{mandatory_forbid_paths}
use leftovers.Config.Ref.{starts, same, within, is_control}
use leftovers.Text.Platform.{Platform}
use leftovers.Text.Patterns.{has_secret, has_mode}
use leftovers.Text.Glob.{fnmatch, name_of, path_match}
use leftovers.Policy.Failure.{
  FileName, DiffFailure, no_changes, too_many_files, too_many_lines, patch_too_large, invalid_utf8,
  path_not_utf8, control_character, git_directory, forbidden_path, dependency_changed,
  binary_change, symlink_change, submodule_change, exec_change, credential, DiffFailure-discrete,
  dedup,
}
use leftovers.Policy.Dependencies.{
  dependency_files, dependency_file_patterns, dependency_path_patterns,
}

-- `patch` is the decoded text, in code points.
pub record DiffInspection : Type 0 where
  pub files : List FileName
  pub added_lines : ℕ
  pub deleted_lines : ℕ
  pub patch : List ℕ
  pub patch_truncated : Bool
  pub invalid_utf8 : Bool
  pub structural_failures : List DiffFailure

abbrev pub changed_lines : DiffInspection → ℕ
changed_lines diff = diff.added_lines + diff.deleted_lines

-- `min(own or common, common)`: neither `None` nor 0 is a limit of the repository's own.
abbrev pub limit_of : Option ℤ → ℤ → ℤ
limit_of none common = common
limit_of (some own) common = if eqb_ℤ own (pos 0) then common else min_ℤ own common

-- `len(text.encode())`: the bytes of a text in UTF-8.
abbrev pub utf8_len : List ℕ → ℕ
utf8_len [] = 0
utf8_len (c ∷ s) =
    (if ltb c 128 then 1 else if ltb c 2048 then 2 else if ltb c 65536 then 3 else 4) + utf8_len s

-- `filename.encode("utf-8")` fails at a surrogate.
abbrev pub is_surrogate : ℕ → Bool
is_surrogate c = leb 0xd800 c && leb c 0xdfff

-- `fnmatch.fnmatch(filename, pattern) or PurePosixPath(filename).match(pattern)`.
abbrev pub glob_match : FileName → String → Bool
glob_match f pattern = fnmatch f (codes pattern) || path_match f (codes pattern)

abbrev pub in_git_directory : FileName → Bool
in_git_directory f = same f (codes ".git") || starts f (codes ".git/")

abbrev pub is_dependency : FileName → Bool
is_dependency f =
    any (λ n. same (name_of f) (codes n)) dependency_files
    || any (λ p. fnmatch (name_of f) (codes p)) dependency_file_patterns
    || any (glob_match f) dependency_path_patterns

module _ {Float : Type 0} (repository : RepositoryConfig Float) (policy : PolicyConfig) where
  abbrev pub forbidden_patterns : List String
  forbidden_patterns = mandatory_forbid_paths ++ policy.forbid_paths ++ repository.forbid_paths

  -- The body of the loop over the changed files.
  abbrev pub file_tests : FileName → List (Bool × DiffFailure)
  file_tests f =
      (any is_surrogate f, path_not_utf8 f)
      ∷ (any is_control f, control_character f)
      ∷ (in_git_directory f, git_directory)
      ∷ (any (glob_match f) forbidden_patterns, forbidden_path f)
      ∷ (policy.forbid_dependency_changes && is_dependency f, dependency_changed f)
      ∷ []

  pub file_failures : List FileName → List DiffFailure
  file_failures [] = []
  file_failures (f ∷ files) = reports (file_tests f) ++ file_failures files

  abbrev pub max_files : ℤ
  max_files = limit_of repository.max_changed_files policy.max_changed_files

  abbrev pub max_lines : ℤ
  max_lines = limit_of repository.max_changed_lines policy.max_changed_lines

  abbrev pub size_tests : DiffInspection → List (Bool × DiffFailure)
  size_tests diff =
      (is_empty diff.files, no_changes)
      ∷ (ltb_ℤ max_files (pos (length diff.files)), too_many_files (length diff.files) max_files)
      ∷ (ltb_ℤ max_lines (pos (changed_lines diff)), too_many_lines (changed_lines diff) max_lines)
      ∷ (
        diff.patch_truncated || ltb_ℤ policy.max_patch_bytes (pos (utf8_len diff.patch)),
        patch_too_large policy.max_patch_bytes,
      )
      ∷ (diff.invalid_utf8, DiffFailure.invalid_utf8)
      ∷ []

  abbrev pub patch_tests : Platform → DiffInspection → List (Bool × DiffFailure)
  patch_tests platform diff =
      (
        within diff.patch (codes "GIT binary patch") || within diff.patch (codes "Binary files "),
        binary_change,
      )
      ∷ (has_mode "120000" diff.patch, symlink_change)
      ∷ (has_mode "160000" diff.patch, submodule_change)
      ∷ (has_mode "100755" diff.patch, exec_change)
      ∷ (has_secret platform.is_word diff.patch, credential)
      ∷ []

  all_failures : Platform → DiffInspection → List DiffFailure
  unfolding file_failures
  all_failures platform diff =
      diff.structural_failures
      ++ reports (size_tests diff)
      ++ file_failures diff.files
      ++ reports (patch_tests platform diff)

  unfoldable pub diff_gate : Platform → DiffInspection → List DiffFailure
  unfolding all_failures dedup
  diff_gate platform diff = dedup DiffFailure-discrete (all_failures platform diff)
