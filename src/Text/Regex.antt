-- ===== src/Text/Regex.antt =====
-- Regular expressions as values, matched by derivatives over the code points of a text.
use leftovers.Base.{
  leb, ◌==◌, if◌then◌else◌, ℕ, zero, suc, Bool, true, false, ◌&&◌, ◌||◌, Option, none, some, List,
  [], ◌∷◌,
}

pub data Regex : Type 0 where
  nothing : Regex
  eps : Regex
  cls : (ℕ → Bool) → Regex
  seq : Regex → Regex → Regex
  alt : Regex → Regex → Regex
  star : Regex → Regex

-- Whether the expression matches the empty text.
nullable : Regex → Bool
nullable nothing = false
nullable eps = true
nullable (cls p) = false
nullable (seq r s) = nullable r && nullable s
nullable (alt r s) = nullable r || nullable s
nullable (star r) = true

-- Sequence and choice without the parts that match nothing, which keeps derivatives small.
mk_seq : Regex → Regex → Regex
mk_seq nothing s = nothing
mk_seq eps s = s
mk_seq r s = seq r s

mk_alt : Regex → Regex → Regex
mk_alt nothing s = s
mk_alt r nothing = r
mk_alt r s = alt r s

-- What may follow the character `c` in a text that the expression matches.
deriv : ℕ → Regex → Regex
deriv c nothing = nothing
deriv c eps = nothing
deriv c (cls p) = if p c then eps else nothing
deriv c (seq r s) =
    let front = mk_seq (deriv c r) s in
    let back = deriv c s in if nullable r then mk_alt front back else front
deriv c (alt r s) = mk_alt (deriv c r) (deriv c s)
deriv c (star r) = mk_seq (deriv c r) (star r)

-- `re.fullmatch(r, text) is not None`.
unfoldable pub full_match : Regex → List ℕ → Bool
unfolding nullable deriv mk_seq mk_alt
full_match r [] = nullable r
full_match r (c ∷ s) = full_match (deriv c r) s

-- Some prefix of the text matches, and `at_end` accepts its last character and the next one.
unfoldable pub prefix_match : (Option ℕ → Option ℕ → Bool) → Regex → Option ℕ → List ℕ → Bool
unfolding nullable deriv mk_seq mk_alt
prefix_match at_end r last [] = nullable r && at_end last none
prefix_match at_end r last (c ∷ s) =
    let rest = prefix_match at_end (deriv c r) (some c) s in
    (nullable r && at_end last (some c)) || rest

-- `re.search(r, text) is not None`, where `at_start` and `at_end` say which places may begin and
-- end a match.
unfoldable pub search_from :
    (Option ℕ → Option ℕ → Bool) → (Option ℕ → Option ℕ → Bool) → Regex → Option ℕ → List ℕ → Bool
unfolding prefix_match
search_from at_start at_end r last [] = at_start last none && prefix_match at_end r last []
search_from at_start at_end r last (c ∷ s) =
    let here = prefix_match at_end r last (c ∷ s) in
    let rest = search_from at_start at_end r (some c) s in (at_start last (some c) && here) || rest

abbrev pub anywhere : Option ℕ → Option ℕ → Bool
anywhere last next = true

unfoldable pub search_in : Regex → List ℕ → Bool
unfolding search_from
search_in r s = search_from anywhere anywhere r none s

-- The notations of a pattern: literals, sets, `r?`, `r+`, `r{n}`, `r{0,n}`, `r{n,}`, `(?:r|s|...)`.
abbrev pub char : ℕ → Regex
char c = cls (λ d. d == c)

abbrev pub lit : List ℕ → Regex
lit [] = eps
lit (c ∷ s) = seq (char c) (lit s)

abbrev pub opt : Regex → Regex
opt r = alt eps r

abbrev pub plus : Regex → Regex
plus r = seq r (star r)

abbrev pub times : ℕ → Regex → Regex
times zero r = eps
times (suc n) r = seq r (times n r)

abbrev pub up_to : ℕ → Regex → Regex
up_to zero r = eps
up_to (suc n) r = opt (seq r (up_to n r))

abbrev pub at_least : ℕ → Regex → Regex
at_least n r = seq (times n r) (star r)

abbrev pub one_of_these : List Regex → Regex
one_of_these [] = nothing
one_of_these (r ∷ rs) = alt r (one_of_these rs)

abbrev pub between : ℕ → ℕ → ℕ → Bool
between lo hi c = leb lo c && leb c hi

abbrev pub upper : ℕ → Bool
upper = between b'A' b'Z'

abbrev pub lower : ℕ → Bool
lower = between b'a' b'z'

abbrev pub digit : ℕ → Bool
digit = between b'0' b'9'

abbrev pub alnum : ℕ → Bool
alnum c = upper c || lower c || digit c
