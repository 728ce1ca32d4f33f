-- ===== src/Publisher/Reconcile.antt =====
-- `_is_expected_fork`, `_is_expected_pr_url`, `_validate_open_pr_preflight` and `_reconciled_pr_url` of
-- src/leftovers/publisher.py: what GitHub's answers have to be.
pub mod Laws
use leftovers.Base.{
  leb, ◌==◌, if◌then◌else◌, all, ℕ, String, Bool, true, false, not, ◌&&◌, ◌||◌, Option, none, some,
  List, [], ◌∷◌, ◌++◌,
}
use leftovers.Base.Result.{err, ok, ◌>>=◌, ◌>>◌}
use leftovers.Base.Text.{str_eq, codes}
use leftovers.Models.Payload.{
  Json, text, arr, Items, nil, cons, get, is_true, is_falsy, is_object, is_bool, is_text,
}
use leftovers.Publisher.{publication_error, Published, refuse_when}

-- `data.get(key) or {}` that has to be a dictionary with `full_name` of the upstream: only a
-- dictionary has it.
abbrev pub names_upstream : String → Option Json → Bool
names_upstream upstream (some item) = elim (get "full_name" item) [
  | some (text s) ↦ str_eq s upstream
  | _ ↦ false
]
names_upstream upstream none = false

abbrev pub is_present : (String → Bool) → Option Json → Bool
is_present is_zero v = not (is_falsy is_zero v)

unfoldable pub is_expected_fork : (String → Bool) → Json → String → Bool
is_expected_fork is_zero item upstream =
    is_object item
    && is_present is_zero (get "fork" item)
    && (names_upstream upstream (get "parent" item) || names_upstream upstream (get "source" item))

abbrev pub is_digit : ℕ → Bool
is_digit c = leb b'0' c && leb c b'9'

-- The number of the pull request: no leading zero.
abbrev pub is_pr_number : List ℕ → Bool
is_pr_number [] = false
is_pr_number (c ∷ s) = leb b'1' c && leb c b'9' && all is_digit s

-- What follows a prefix, if the text starts with it.
unfoldable pub after : List ℕ → List ℕ → Option (List ℕ)
after [] s = some s
after (p ∷ ps) [] = none
after (p ∷ ps) (c ∷ s) = let rest = after ps s in if p == c then rest else none

abbrev pub pr_prefix : String → List ℕ
pr_prefix repository = codes "https://github.com/" ++ codes repository ++ codes "/pull/"

abbrev pub is_numbered : Option (List ℕ) → Bool
is_numbered none = false
is_numbered (some s) = is_pr_number s

-- `re.fullmatch` of the prefix, whose repository is escaped, and `[1-9][0-9]*`.
unfoldable pub is_expected_pr_url : Option Json → String → Bool
unfolding after
is_expected_pr_url (some (text url)) repository =
    is_numbered (after (pr_prefix repository) (codes url))
is_expected_pr_url _ repository = false

abbrev pub has_login : Option Json → Bool
has_login (some owner) = is_text (get "login" owner)
has_login none = false

-- An item of the list of open pull requests has the fields that are asked for.
unfoldable pub is_open_pr : String → Json → Bool
unfolding is_expected_pr_url
is_open_pr repository item =
    is_object item
    && has_login (get "headRepositoryOwner" item)
    && all (λ key. is_text (get key item))
        ("url" ∷ "baseRefName" ∷ "body" ∷ "headRefName" ∷ "headRefOid" ∷ "title" ∷ [])
    && is_bool (get "isDraft" item)
    && is_expected_pr_url (get "url" item) repository

unfoldable pub check_open_prs : String → Items → Published (List Json)
unfolding is_open_pr
check_open_prs repository nil = ok []
check_open_prs repository (cons item items) = do
  refuse_when (not (is_open_pr repository item)) "open-PR preflight item has an invalid shape"
  rest ← check_open_prs repository items
  ok (item ∷ rest)

unfoldable pub validate_open_pr_preflight : Json → String → Published (List Json)
unfolding check_open_prs
validate_open_pr_preflight (arr items) repository = check_open_prs repository items
validate_open_pr_preflight _ repository =
    err (publication_error "open-PR preflight response has an invalid shape")

-- What a pull request has to show. The title is compared by its code points.
pub record Expected : Type 0 where
  pub repository : String
  pub head_sha : String
  pub base_branch : String
  pub title : List ℕ
  pub body : String

abbrev pub same_codes : List ℕ → List ℕ → Bool
same_codes [] [] = true
same_codes (a ∷ s) (b ∷ t) = a == b && same_codes s t
same_codes _ _ = false

unfoldable pub shows : String → Option Json → Bool
shows expected (some (text s)) = str_eq s expected
shows expected _ = false

unfoldable pub shows_title : List ℕ → Option Json → Bool
shows_title expected (some (text s)) = same_codes (codes s) expected
shows_title expected _ = false

abbrev pub all_objects : Items → Bool
all_objects nil = true
all_objects (cons x xs) = is_object x && all_objects xs

abbrev pub url_text : Option Json → String
url_text (some (text s)) = s
url_text _ = ""

unfoldable pub check_item : Expected → Json → Published String
unfolding is_expected_pr_url shows shows_title
check_item expected item = do
  refuse_when (not (is_expected_pr_url (get "url" item) expected.repository))
      "PR reconciliation returned an unexpected URL"
  refuse_when (not (shows expected.head_sha (get "headRefOid" item)))
      "existing issue PR has an unexpected head commit"
  refuse_when (not (shows expected.base_branch (get "baseRefName" item)))
      "existing issue PR targets an unexpected base branch"
  refuse_when (not (is_true (get "isDraft" item))) "existing issue PR is not a draft"
  refuse_when (not (shows_title expected.title (get "title" item)))
      "existing issue PR has unexpected title text"
  refuse_when (not (shows expected.body (get "body" item)))
      "existing issue PR has unexpected body text"
  ok (url_text (get "url" item))

unfoldable pub reconcile_items : Expected → Items → Published (Option String)
unfolding check_item
reconcile_items expected nil = ok none
reconcile_items expected (cons item nil) = do url ← check_item expected item; ok (some url)
reconcile_items expected (cons item (cons other items)) =
    err (publication_error "PR reconciliation is ambiguous for the issue branch")

-- Every call passes a title and a body to compare with.
unfoldable pub reconciled_pr_url : Expected → Json → Published (Option String)
unfolding reconcile_items
reconciled_pr_url expected (arr items) = do
  refuse_when (not (all_objects items)) "PR reconciliation response has an invalid shape"
  reconcile_items expected items
reconciled_pr_url expected _ =
    err (publication_error "PR reconciliation response has an invalid shape")
