-- ===== src/Policy/Modes.antt =====
-- `_mode_failures` of src/leftovers/policy.py.
use leftovers.Base.{
  if◌then◌else◌, when, All, append-eq-nil, ◌≡◌, refl, ◌↔◌, ◌⊎◌, Bool, true, false, not, ◌&&◌, ◌||◌,
  Option, none, some, List, [], ◌∷◌, ◌++◌, arith,
}
use leftovers.Policy.Failure.{
  FileName, DiffFailure, symlink_path, submodule_link, non_regular, exec_added, exec_changed,
  DiffFailure-discrete, dedup, dedup-eq-nil,
}

-- The texts of a mode that the code compares with: `100644`, `100755`, `120000` and `160000`. Every
-- other text (`040000`, `unsafe`, ...) is `other`: no test of the code tells two of those apart.
pub data Mode : Type 0 where
  regular executable symlink gitlink other : Mode

abbrev mode_eq : Mode → Mode → Bool
mode_eq regular regular = true
mode_eq executable executable = true
mode_eq symlink symlink = true
mode_eq gitlink gitlink = true
mode_eq other other = true
mode_eq a b = false

-- `modes.get(filename)`, for what `_tree_modes` and `_worktree_modes` have found.
abbrev pub Modes : Type 0
Modes = FileName → Option Mode

-- `mode == text`, where the mode may be missing.
abbrev pub is_mode : Option Mode → Mode → Bool
is_mode none text = false
is_mode (some mode) text = mode_eq mode text

abbrev is_file : Option Mode → Bool
is_file mode = is_mode mode regular || is_mode mode executable

-- `new is not None and new not in {...}`.
abbrev is_irregular : Option Mode → Bool
is_irregular none = false
is_irregular (some mode) = mode_eq mode other

abbrev differ : Option Mode → Option Mode → Bool
differ (some a) (some b) = not (mode_eq a b)
differ (some a) none = true
differ none (some b) = true
differ none none = false

-- The body of the loop, for one file.
unfoldable pub file_mode_failures : FileName → Option Mode → Option Mode → List DiffFailure
file_mode_failures filename old new =
    when (is_mode old symlink || is_mode new symlink) (symlink_path filename)
    ++ when (is_mode old gitlink || is_mode new gitlink) (submodule_link filename)
    ++ when (is_irregular new) (non_regular filename)
    ++ (if is_mode new executable && not (is_mode old executable)
        then exec_added filename ∷ []
        else when (is_file old && is_file new && differ old new) (exec_changed filename))

pub all_mode_failures : List FileName → Modes → Modes → List DiffFailure
unfolding file_mode_failures
all_mode_failures [] old new = []
all_mode_failures (f ∷ files) old new =
    file_mode_failures f (old f) (new f) ++ all_mode_failures files old new

unfoldable pub mode_failures : List FileName → Modes → Modes → List DiffFailure
unfolding all_mode_failures dedup
mode_failures files old new = dedup DiffFailure-discrete (all_mode_failures files old new)

-- What may happen to a file: it was no link of either kind, and it is gone, or regular and was not
-- executable, or executable as it was before.
abbrev pub IsPlainChange : Option Mode → Option Mode → Type 0
IsPlainChange old new =
    ((is_mode old symlink ≡ false) × (is_mode old gitlink ≡ false))
    × ((new ≡ none)
        ⊎ ((new ≡ some regular) × (is_mode old executable ≡ false))
        ⊎ ((new ≡ some executable) × (old ≡ some executable)))

plain_iff :
    (f : FileName) (old new : Option Mode)
    → (file_mode_failures f old new ≡ []) ↔ IsPlainChange old new
unfolding file_mode_failures
plain_iff f none new = (λ h. ground arith, λ h. ground arith)
plain_iff f (some o) none = (λ h. ground arith, λ h. ground arith)
plain_iff f (some o) (some n) = (λ h. ground arith, λ h. ground arith)

All-plain_iff :
    (files : List FileName) (old new : Modes)
    → (all_mode_failures files old new ≡ []) ↔ All (λ f. IsPlainChange (old f) (new f)) files
unfolding all_mode_failures
All-plain_iff [] old new = (λ h. tt, λ h. refl)
All-plain_iff (f ∷ files) old new =
    let both =
      append-eq-nil (file_mode_failures f (old f) (new f)) (all_mode_failures files old new) in
    let here = plain_iff f (old f) (new f) in
    let rest = All-plain_iff files old new in
    (λ h. (here.0 (both.0 h).0, rest.0 (both.0 h).1), λ h. both.1 (here.1 h.0, rest.1 h.1))

-- The inspection reports no mode exactly if every changed file undergoes a plain change: its old
-- mode is that of no symbolic link and no submodule link, and it is now gone, or regular and was not
-- executable before, or executable and was executable before. Any other old mode is accepted, so a
-- special file may be removed or become a regular one.
pub mode_failures_iff :
    (files : List FileName) (old new : Modes)
    → (mode_failures files old new ≡ []) ↔ All (λ f. IsPlainChange (old f) (new f)) files
mode_failures_iff files old new =
    let found = dedup-eq-nil DiffFailure-discrete (all_mode_failures files old new) in
    let plain = All-plain_iff files old new in
    unfold mode_failures in (λ h. plain.0 (found.0 h), λ h. found.1 (plain.1 h))
