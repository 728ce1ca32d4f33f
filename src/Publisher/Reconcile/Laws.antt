-- ===== src/Publisher/Reconcile/Laws.antt =====
-- Which pull request the publisher takes for its own (src/leftovers/publisher.py).
use leftovers.Base.{flip_iff, String, ◌≡◌, refl, ap, ◌∙◌, subst, true, not, Option, some}
use leftovers.Base.Result.{ok, >>=-eq-ok, ok-injective, raise_if-ok}
use leftovers.Base.Text.{eq_iff}
use leftovers.Models.Payload.{Json, bool, text, arr, Items, nil, cons, get, is_true}
use leftovers.Publisher.{Published}
use leftovers.Publisher.Reconcile.{
  is_expected_pr_url, Expected, shows, shows_title, all_objects, url_text, check_item,
  reconcile_items, reconciled_pr_url,
}

-- The one item of an answer is a draft of the expected commit, base, title and body.
pub record IsOurs (expected : Expected) (url : String) (item : Json) : Type 0 where
  pub url_eq : get "url" item ≡ some (text url)
  pub is_expected : is_expected_pr_url (get "url" item) expected.repository ≡ true
  pub head_eq : get "headRefOid" item ≡ some (text expected.head_sha)
  pub base_eq : get "baseRefName" item ≡ some (text expected.base_branch)
  pub draft : get "isDraft" item ≡ some (bool true)
  pub title_shown : shows_title expected.title (get "title" item) ≡ true
  pub body_eq : get "body" item ≡ some (text expected.body)

shows-true : (s : String) (v : Option Json) → shows s v ≡ true → v ≡ some (text s)
unfolding shows
shows-true s (some (text t)) h = ap (λ r. some (text r)) ((eq_iff t s).0 h)
shows-true s v h = cc

is_true-eq : (v : Option Json) → is_true v ≡ true → v ≡ some (bool true)
is_true-eq (some (bool true)) h = refl
is_true-eq v h = cc

url_text-eq :
    (v : Option Json) (repository : String)
    → is_expected_pr_url v repository ≡ true
    → v ≡ some (text (url_text v))
unfolding is_expected_pr_url
url_text-eq (some (text s)) repository h = refl
url_text-eq v repository h = cc

item-checks :
    (expected : Expected) (item : Json) (url : String)
    → check_item expected item ≡ ok url
    → (is_expected_pr_url (get "url" item) expected.repository ≡ true)
      × (shows expected.head_sha (get "headRefOid" item) ≡ true)
      × (shows expected.base_branch (get "baseRefName" item) ≡ true)
      × (is_true (get "isDraft" item) ≡ true)
      × (shows_title expected.title (get "title" item) ≡ true)
      × (shows expected.body (get "body" item) ≡ true)
      × (url_text (get "url" item) ≡ url)
unfolding check_item
item-checks expected item url h =
    let address = raise_if-ok (not (is_expected_pr_url (get "url" item) expected.repository)) _ h in
    let head = raise_if-ok (not (shows expected.head_sha (get "headRefOid" item))) _ address.1 in
    let base = raise_if-ok (not (shows expected.base_branch (get "baseRefName" item))) _ head.1 in
    let draft = raise_if-ok (not (is_true (get "isDraft" item))) _ base.1 in
    let title = raise_if-ok (not (shows_title expected.title (get "title" item))) _ draft.1 in
    let body = raise_if-ok (not (shows expected.body (get "body" item))) _ title.1 in
    (
      (flip_iff _).0 address.0,
      (flip_iff _).0 head.0,
      (flip_iff _).0 base.0,
      (flip_iff _).0 draft.0,
      (flip_iff _).0 title.0,
      (flip_iff _).0 body.0,
      ok-injective body.1,
    )

item-IsOurs :
    (expected : Expected) (item : Json) (url : String)
    → check_item expected item ≡ ok url
    → IsOurs expected url item
item-IsOurs expected item url h =
    let checks = item-checks expected item url h in
    record {
      url_eq =
          url_text-eq (get "url" item) expected.repository checks.0
          ∙ ap (λ s. some (text s)) checks.6;
      is_expected = checks.0;
      head_eq = shows-true expected.head_sha (get "headRefOid" item) checks.1;
      base_eq = shows-true expected.base_branch (get "baseRefName" item) checks.2;
      draft = is_true-eq (get "isDraft" item) checks.3;
      title_shown = checks.4;
      body_eq = shows-true expected.body (get "body" item) checks.5;
    }

unwrap : {a b : String} → ◌≡◌ {A = Published (Option String)} (ok (some a)) (ok (some b)) → a ≡ b
unwrap h = cc

items-found :
    (expected : Expected) (items : Items) (url : String)
    → reconcile_items expected items ≡ ok (some url)
    → (item : Json) × (items ≡ cons item nil) × IsOurs expected url item
unfolding reconcile_items
items-found expected nil url h = cc
items-found expected (cons item nil) url h =
    let checked = >>=-eq-ok (check_item expected item) (λ u. ok (some u)) h in
    (
      item,
      refl,
      subst (λ u. IsOurs expected u item) (unwrap checked.2)
          (item-IsOurs expected item checked.0 checked.1),
    )
items-found expected (cons item (cons other items)) url h = cc

-- A pull request that the publisher finds by its branch is taken for its own only if it is the one
-- item of GitHub's answer, a draft in the approved repository whose head commit, base branch, title
-- and body are the expected ones; the URL that is given is that item's.
pub reconciled_pr_url-IsOurs :
    (expected : Expected) (answer : Json) (url : String)
    → reconciled_pr_url expected answer ≡ ok (some url)
    → (item : Json) × (answer ≡ arr (cons item nil)) × IsOurs expected url item
unfolding reconciled_pr_url
reconciled_pr_url-IsOurs expected (arr items) url h =
    let listed = raise_if-ok (not (all_objects items)) _ h in
    let found = items-found expected items url listed.1 in (found.0, ap arr found.1, found.2)
reconciled_pr_url-IsOurs expected answer url h = cc
