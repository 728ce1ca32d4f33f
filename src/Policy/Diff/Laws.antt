-- ===== src/Policy/Diff/Laws.antt =====
-- What an acceptable patch is, condition by condition.
use leftovers.Policy.Diff.{
  DiffInspection, changed_lines, utf8_len, is_surrogate, glob_match, in_git_directory,
  is_dependency, forbidden_patterns, file_tests, file_failures, max_files, max_lines, size_tests,
  patch_tests, diff_gate, all_failures,
}
use leftovers.Base.{
  or_iff, unless_iff, length, any, is_empty, All, append-eq-nil, reports, reports-eq-nil, ◌≡◌, refl,
  ◌↔◌, true, false, List, [], ◌∷◌, ◌++◌,
}
use leftovers.Base.Int.{ℤ, pos, ◌≤ℤ◌, ltb_ℤ, ltb_ℤ-false, ltb_ℤ_of_le}
use leftovers.Base.Text.{codes}
use leftovers.Config.{PolicyConfig, RepositoryConfig}
use leftovers.Config.Ref.{within, is_control}
use leftovers.Text.Platform.{Platform}
use leftovers.Text.Patterns.{has_secret, has_mode}
use leftovers.Policy.Failure.{FileName, DiffFailure-discrete, dedup-eq-nil}

ltb_ℤ_iff : (a b : ℤ) → (ltb_ℤ a b ≡ false) ↔ (b ≤ℤ a)
ltb_ℤ_iff a b = (ltb_ℤ-false a b, ltb_ℤ_of_le a b)

module _ {Float : Type 0} (repository : RepositoryConfig Float) (policy : PolicyConfig) where
  -- A file that a patch may change.
  pub record IsAllowedFile (f : FileName) : Type 0 where
    pub utf8 : any is_surrogate f ≡ false
    pub printable : any is_control f ≡ false
    pub outside_git : in_git_directory f ≡ false
    pub not_forbidden : any (glob_match f) (forbidden_patterns repository policy) ≡ false
    pub no_dependency : policy.forbid_dependency_changes ≡ true → is_dependency f ≡ false

  file_iff :
      (f : FileName) → All (λ t. t.0 ≡ false) (file_tests repository policy f) ↔ IsAllowedFile f
  file_iff f =
      let dependency = unless_iff policy.forbid_dependency_changes (is_dependency f) in
      (
        λ h. record {
          utf8 = h.0;
          printable = h.1.0;
          outside_git = h.1.1.0;
          not_forbidden = h.1.1.1.0;
          no_dependency = dependency.0 h.1.1.1.1.0;
        },
        λ h. (
          h.utf8,
          (h.printable, (h.outside_git, (h.not_forbidden, (dependency.1 h.no_dependency, tt)))),
        ),
      )

  files_iff :
      (files : List FileName)
      → (file_failures repository policy files ≡ []) ↔ All IsAllowedFile files
  unfolding file_failures
  files_iff [] = (λ h. tt, λ h. refl)
  files_iff (f ∷ files) =
      let both =
        append-eq-nil (reports (file_tests repository policy f))
          (file_failures repository policy files) in
      let tests = reports-eq-nil (file_tests repository policy f) in
      let here = file_iff f in
      let rest = files_iff files in
      (
        λ h. (here.0 (tests.0 (both.0 h).0), rest.0 (both.0 h).1),
        λ h. both.1 (tests.1 (here.1 h.0), rest.1 h.1),
      )

  -- A patch that the gate lets through.
  pub record IsAcceptable (platform : Platform) (diff : DiffInspection) : Type 0 where
    pub plain_modes : diff.structural_failures ≡ []
    pub some_file : is_empty diff.files ≡ false
    pub few_files : pos (length diff.files) ≤ℤ max_files repository policy
    pub few_lines : pos (changed_lines diff) ≤ℤ max_lines repository policy
    pub whole : diff.patch_truncated ≡ false
    pub few_bytes : pos (utf8_len diff.patch) ≤ℤ policy.max_patch_bytes
    pub valid_text : diff.invalid_utf8 ≡ false
    pub allowed_files : All IsAllowedFile diff.files
    pub no_binary :
        (within diff.patch (codes "GIT binary patch") ≡ false)
        × (within diff.patch (codes "Binary files ") ≡ false)
    pub no_special_mode :
        (has_mode "120000" diff.patch ≡ false)
        × (has_mode "160000" diff.patch ≡ false)
        × (has_mode "100755" diff.patch ≡ false)
    pub no_secret : has_secret platform.is_word diff.patch ≡ false

  -- The gate reports nothing exactly if the patch is acceptable: no structural failure, within the
  -- limits on files, lines and bytes, whole and valid text, every changed file allowed (outside
  -- `.git`, off the mandatory and the configured forbidden paths, and no dependency manifest where
  -- those are forbidden), and a text with no binary part, special mode or credential in it.
  pub diff_gate_iff :
      (platform : Platform) (diff : DiffInspection)
      → (diff_gate repository policy platform diff ≡ []) ↔ IsAcceptable platform diff
  diff_gate_iff platform diff =
      let sizes = size_tests repository policy diff in
      let files = file_failures repository policy diff.files in
      let patches = patch_tests repository policy platform diff in
      let found =
        dedup-eq-nil DiffFailure-discrete (all_failures repository policy platform diff) in
      let first =
        append-eq-nil (diff.structural_failures ++ reports sizes ++ files) (reports patches) in
      let second = append-eq-nil (diff.structural_failures ++ reports sizes) files in
      let third = append-eq-nil diff.structural_failures (reports sizes) in
      let size = reports-eq-nil sizes in
      let patch = reports-eq-nil patches in
      let names = files_iff diff.files in
      let most_files = ltb_ℤ_iff (max_files repository policy) (pos (length diff.files)) in
      let most_lines = ltb_ℤ_iff (max_lines repository policy) (pos (changed_lines diff)) in
      let most_bytes = ltb_ℤ_iff policy.max_patch_bytes (pos (utf8_len diff.patch)) in
      let bytes =
        or_iff diff.patch_truncated (ltb_ℤ policy.max_patch_bytes (pos (utf8_len diff.patch))) in
      let binary =
        or_iff (within diff.patch (codes "GIT binary patch"))
          (within diff.patch (codes "Binary files ")) in
      unfold diff_gate in
      (
        λ h.
            let (front, patch_none) = first.0 (found.0 h) in
            let (gates, file_none) = second.0 front in
            let (plain, size_none) = third.0 gates in
            let s = size.0 size_none in
            let p = patch.0 patch_none in
            record {
              plain_modes = plain;
              some_file = s.0;
              few_files = most_files.0 s.1.0;
              few_lines = most_lines.0 s.1.1.0;
              whole = (bytes.0 s.1.1.1.0).0;
              few_bytes = most_bytes.0 (bytes.0 s.1.1.1.0).1;
              valid_text = s.1.1.1.1.0;
              allowed_files = names.0 file_none;
              no_binary = binary.0 p.0;
              no_special_mode = (p.1.0, p.1.1.0, p.1.1.1.0);
              no_secret = p.1.1.1.1.0;
            },
        λ h. found.1 (
            first.1 (
              second.1 (
                third.1 (
                  h.plain_modes,
                  size.1 (
                    h.some_file,
                    (
                      most_files.1 h.few_files,
                      (
                        most_lines.1 h.few_lines,
                        (bytes.1 (h.whole, most_bytes.1 h.few_bytes), (h.valid_text, tt)),
                      ),
                    ),
                  ),
                ),
                names.1 h.allowed_files,
              ),
              patch.1 (
                binary.1 h.no_binary,
                (
                  h.no_special_mode.0,
                  (h.no_special_mode.1, (h.no_special_mode.2, (h.no_secret, tt))),
                ),
              ),
            )),
      )
