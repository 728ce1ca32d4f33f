-- ===== src/Publisher/Title.antt =====
-- `_safe_title` of src/leftovers/publisher.py, on the code points of the text.
pub mod Laws
use leftovers.Base.{
  ◌==◌, if◌then◌else◌, is_empty, ℕ, zero, suc, Bool, true, false, ◌&&◌, List, [], ◌∷◌,
}
use leftovers.Base.Result.{ok, ◌>>=◌, ◌>>◌}
use leftovers.Config.Ref.{is_space, is_ascii_alnum, is_control}
use leftovers.Publisher.{Published, refuse_when}

-- `re.sub(r"[...]+", " ", value)`: each run of such characters becomes one space. The flag tells
-- whether the character before belongs to a run.
unfoldable pub squeeze : (ℕ → Bool) → Bool → List ℕ → List ℕ
squeeze p inside [] = []
squeeze p inside (c ∷ s) =
    let run = squeeze p true s in
    let rest = squeeze p false s in if p c then (if inside then run else 32 ∷ run) else c ∷ rest

-- `s.strip()`.
unfoldable pub lstrip : List ℕ → List ℕ
lstrip [] = []
lstrip (c ∷ s) = let rest = lstrip s in if is_space c then rest else c ∷ s

unfoldable pub rstrip : List ℕ → List ℕ
rstrip [] = []
rstrip (c ∷ s) = let rest = rstrip s in if is_empty rest && is_space c then [] else c ∷ rest

abbrev pub starts_name : List ℕ → Bool
starts_name [] = false
starts_name (c ∷ s) = is_ascii_alnum c

-- `re.sub(r"@(?=[A-Za-z0-9])", "@\u200b", s)`: a zero width space parts the two.
unfoldable pub part_mentions : List ℕ → List ℕ
part_mentions [] = []
part_mentions (c ∷ s) =
    let rest = part_mentions s in if c == b'@' && starts_name s then c ∷ 8203 ∷ rest else c ∷ rest

-- `s[:n]`.
unfoldable pub take : ℕ → List ℕ → List ℕ
take zero s = []
take (suc n) [] = []
take (suc n) (c ∷ s) = c ∷ take n s

unfoldable pub safe_title : ℕ → List ℕ → Published (List ℕ)
unfolding squeeze lstrip rstrip part_mentions take
safe_title maximum value = do
  let spaced = rstrip (lstrip (squeeze is_control false value))
  let cleaned = part_mentions (squeeze is_space false spaced)
  refuse_when (is_empty cleaned) "PR title is empty"
  ok (take maximum cleaned)
