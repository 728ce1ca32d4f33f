-- ===== src/Text/Glob.antt =====
-- `fnmatch.fnmatch` on a POSIX system, and `PurePosixPath.match` and `.name`.
use leftovers.Base.{
  ◌==◌, if◌then◌else◌, length, is_empty, ℕ, zero, suc, ◌≡◌, refl, Bool, true, false, not, ◌&&◌,
  ◌||◌, Option, none, some, List, [], ◌∷◌, ◌++◌,
}
use leftovers.Base.Text.{codes}
use leftovers.Text.Regex.{Regex, nothing, eps, cls, seq, star, full_match, char, between}

-- The members of a set `[...]`, whose closing bracket has been found: ranges and single characters.
abbrev in_set : List ℕ → ℕ → Bool
in_set [] c = false
in_set (a ∷ []) c = c == a
in_set (a ∷ b ∷ []) c = c == a || c == b
in_set (a ∷ b ∷ d ∷ set) c =
    let single = in_set (b ∷ d ∷ set) c in
    let range = in_set set c in if b == b'-' then between a d c || range else c == a || single

-- The text up to the next `]` and the text behind it.
split_set : List ℕ → List ℕ → Option (List ℕ × List ℕ)
split_set acc [] = none
split_set acc (c ∷ p) = if c == b']' then some (acc, p) else split_set (acc ++ c ∷ []) p

-- A `]` that stands first in the set is a member.
open_set : List ℕ → List ℕ → Option (List ℕ × List ℕ)
unfolding split_set
open_set front [] = none
open_set front (c ∷ p) = split_set (front ++ c ∷ []) p

find_set : List ℕ → Option (List ℕ × List ℕ)
unfolding open_set
find_set [] = none
find_set (c ∷ p) = if c == b'!' then open_set (c ∷ []) p else open_set [] (c ∷ p)

set_class : List ℕ → Regex
set_class [] = nothing
set_class (c ∷ set) = if c == b'!' then cls (λ d. not (in_set set d)) else cls (in_set (c ∷ set))

any_char : Regex
any_char = cls (λ _. true)

-- `fnmatch.translate`. Every round takes at least one character of the pattern.
translate : ℕ → List ℕ → Regex
unfolding find_set set_class any_char
translate zero p = eps
translate (suc fuel) [] = eps
translate (suc fuel) (c ∷ p) =
    let rest = translate fuel p in
    let literal = seq (char c) rest in
    let with_set : Regex = elim (find_set p) [
      | none ↦ literal
      | some (set, behind) ↦ seq (set_class set) (translate fuel behind)
    ] in
    if c == b'*'
    then seq (star any_char) rest
    else if c == b'?'
    then seq any_char rest
    else if c == b'['
    then with_set
    else literal

unfoldable pub fnmatch : List ℕ → List ℕ → Bool
unfolding translate
fnmatch name pattern = full_match (translate (suc (length pattern)) pattern) name

-- The parts of a path: what stands between slashes, without empty parts and dots.
abbrev keep_part : List ℕ → List (List ℕ) → List (List ℕ)
keep_part [] parts = parts
keep_part (c ∷ []) parts = if c == b'.' then parts else (c ∷ []) ∷ parts
keep_part (c ∷ d ∷ part) parts = (c ∷ d ∷ part) ∷ parts

unfoldable pub parts_from : List ℕ → List ℕ → List (List ℕ)
parts_from part [] = keep_part part []
parts_from part (c ∷ s) =
    let cut = keep_part part (parts_from [] s) in
    let more = parts_from (part ++ c ∷ []) s in if c == b'/' then cut else more

abbrev pub parts : List ℕ → List (List ℕ)
parts s = parts_from [] s

-- `Path(filename).name`: the last part.
abbrev last_part : List (List ℕ) → List ℕ
last_part [] = []
last_part (p ∷ []) = p
last_part (p ∷ q ∷ ps) = last_part (q ∷ ps)

unfoldable pub name_of : List ℕ → List ℕ
unfolding parts_from
name_of s = last_part (parts s)

-- The parts of the pattern against the last parts of the path, from the right.
abbrev match_back : List (List ℕ) → List (List ℕ) → Bool
match_back [] names = true
match_back (p ∷ ps) [] = false
match_back (p ∷ ps) (n ∷ names) = fnmatch n p && match_back ps names

abbrev reversed : List (List ℕ) → List (List ℕ) → List (List ℕ)
reversed [] acc = acc
reversed (x ∷ xs) acc = reversed xs (x ∷ acc)

-- `PurePosixPath(filename).match(pattern)` of a relative path: a rooted pattern matches none. A
-- pattern without parts, as the empty one and ".", at which Python raises, matches none either.
unfoldable pub path_match : List ℕ → List ℕ → Bool
unfolding fnmatch parts_from
path_match filename [] = false
path_match filename (c ∷ p) =
    if c == b'/' || is_empty (parts (c ∷ p))
    then false
    else match_back (reversed (parts (c ∷ p)) []) (reversed (parts filename) [])

matches_nested : path_match (codes "a/b/infra/x.tf") (codes "**/infra/**") ≡ true
unfolding path_match full_match
matches_nested = refl

misses_deeper : path_match (codes "a/infra/b/x.tf") (codes "infra/**") ≡ false
unfolding path_match full_match
misses_deeper = refl

matches_set : fnmatch (codes "ab7") (codes "a?[!0-5]") ≡ true
unfolding fnmatch full_match
matches_set = refl
