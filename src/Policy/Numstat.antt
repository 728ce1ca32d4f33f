-- ===== src/Policy/Numstat.antt =====
-- The loop over `git diff --numstat -z` in `inspect_diff` and `inspect_committed_diff`.
use leftovers.Text.Platform.{Platform}
use leftovers.Policy.Diff.Laws.{diff_gate_iff}
use leftovers.Config.Validate.Bounds.{validate-bounds}
use leftovers.Config.Validate.Rules.{validate}
use leftovers.Config.Floats.{Floats}
use leftovers.Base.Result.{ok}
use leftovers.Base.{
  ◌==◌, if◌then◌else◌, Bool-cases, any, all, is_empty, ℕ, ◌+◌, ◌-◌, ◌*◌, ◌≤◌, ◌≡◌, inl, inr, Bool,
  true, false, not, ◌&&◌, Option, none, some, List, [], ◌∷◌, ◌++◌, arith,
}
use leftovers.Base.Int.{ℤ, pos, negsuc, ◌≤ℤ◌, ◌<ℤ◌, eqb_ℤ}
use leftovers.Config.{PolicyConfig, RepositoryConfig, AppConfig}
use leftovers.Budget.Numeral.{is_digit}
use leftovers.Policy.Diff.{DiffInspection, changed_lines, limit_of, max_lines, diff_gate}

-- `text.split(separator)` of Python, from the field that is being read.
unfoldable pub split_from : List ℕ → ℕ → List ℕ → List (List ℕ)
split_from field sep [] = field ∷ []
split_from field sep (c ∷ s) =
    let cut = field ∷ split_from [] sep s in
    let more = split_from (field ++ c ∷ []) sep s in if c == sep then cut else more

abbrev pub split_on : ℕ → List ℕ → List (List ℕ)
split_on sep s = split_from [] sep s

-- `part.isdigit()` of bytes, and `int(part)` of such a part.
abbrev pub is_number : List ℕ → Bool
is_number part = not (is_empty part) && all is_digit part

unfoldable pub number_from : ℕ → List ℕ → ℕ
number_from n [] = n
number_from n (c ∷ s) = number_from (n * 10 + (c - b'0')) s

abbrev pub binary_size : ℕ
binary_size = 1000000

-- The body of the loop: what one record adds to `added` and `deleted`. A third part, the name,
-- changes nothing.
unfoldable pub record_lines : List (List ℕ) → ℕ × ℕ
unfolding number_from
record_lines [] = (0, 0)
record_lines (a ∷ []) = (0, 0)
record_lines (a ∷ d ∷ rest) =
    if is_number a && is_number d then (number_from 0 a, number_from 0 d) else (binary_size, 0)

unfoldable pub count_records : List (List ℕ) → ℕ × ℕ
unfolding record_lines
count_records [] = (0, 0)
count_records (r ∷ rs) =
    let one = record_lines (split_on b'\t' r) in
    let rest = count_records rs in (one.0 + rest.0, one.1 + rest.1)

unfoldable pub numstat_lines : List ℕ → ℕ × ℕ
unfolding count_records split_from
numstat_lines output = count_records (split_on 0 output)

-- A record with two parts or more that are not both numbers, as Git prints for a binary file.
abbrev pub is_binary : List (List ℕ) → Bool
is_binary (a ∷ d ∷ rest) = not (is_number a && is_number d)
is_binary _ = false

binary_counts :
    (parts : List (List ℕ)) → is_binary parts ≡ true → binary_size ≤ (record_lines parts).0
unfolding record_lines
binary_counts [] h = cc
binary_counts (a ∷ []) h = cc
binary_counts (a ∷ d ∷ rest) h = ground arith

counts_binary :
    (rs : List (List ℕ))
    → any (λ r. is_binary (split_on b'\t' r)) rs ≡ true
    → binary_size ≤ (count_records rs).0
unfolding count_records
counts_binary [] h = cc
counts_binary (r ∷ rs) h = elim (Bool-cases (is_binary (split_on b'\t' r))) [
  | inl e ↦ omega (arith, binary_counts (split_on b'\t' r) e)
  | inr e ↦ omega (arith, counts_binary rs (rw e at h))
]

limit_of-le : (own : Option ℤ) (common : ℤ) → limit_of own common ≤ℤ common
limit_of-le none common = ground arith
limit_of-le (some own) common = elim (Bool-cases (eqb_ℤ own (pos 0))) [
  | inl e ↦ ground arith
  | inr e ↦ ground arith
]

below_large :
    (limit common : ℤ) (n m : ℕ)
    → limit ≤ℤ common
    → common ≤ℤ pos 10000
    → binary_size ≤ n
    → limit <ℤ pos (n + m)
below_large (pos a) (pos b) n m h k l = ground arith
below_large (pos a) (negsuc b) n m h k l = ground arith
below_large (negsuc a) b n m h k l = ground arith

binary_exceeds_limit :
    {Float : Type 0} (repository : RepositoryConfig Float) (policy : PolicyConfig) (output : List ℕ)
    (diff : DiffInspection)
    → any (λ r. is_binary (split_on b'\t' r)) (split_on 0 output) ≡ true
    → diff.added_lines ≡ (numstat_lines output).0
    → policy.max_changed_lines ≤ℤ pos 10000
    → max_lines repository policy <ℤ pos (changed_lines diff)
unfolding numstat_lines
binary_exceeds_limit repository policy output diff binary same most =
    below_large (max_lines repository policy) policy.max_changed_lines diff.added_lines
      diff.deleted_lines (limit_of-le repository.max_changed_lines policy.max_changed_lines) most
      (omega (arith, same, counts_binary (split_on 0 output) binary))

-- Under a configuration that the validation accepts, the diff gate refuses every diff whose
-- statistics hold a binary file, whatever limit the repository sets itself.
pub diff_gate_refuses_binary :
    (platform : Platform) (floats : Floats) (config : AppConfig floats.Float)
    (repository : RepositoryConfig floats.Float) (output : List ℕ) (diff : DiffInspection)
    → validate platform floats config ≡ ok tt
    → any (λ r. is_binary (split_on b'\t' r)) (split_on 0 output) ≡ true
    → diff.added_lines ≡ (numstat_lines output).0
    → ¬ (diff_gate repository config.policy platform diff ≡ [])
diff_gate_refuses_binary platform floats config repository output diff accepted binary same passed =
    let (_, _, _, (_, (_, most), _)) = validate-bounds platform floats config accepted in
    let over = binary_exceeds_limit repository config.policy output diff binary same most in
    let few = ((diff_gate_iff repository config.policy platform diff).0 passed).few_lines in
    omega arith
