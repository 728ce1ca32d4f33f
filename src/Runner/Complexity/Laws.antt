-- ===== src/Runner/Complexity/Laws.antt =====
-- The walk of `_validate_json_complexity` (src/leftovers/runner.py) against a description of the
-- values that it accepts by their size, their height and their shape.
use leftovers.Base.{
  ltb, leb, if◌then◌else◌, Bool-cases, ℕ, suc, ◌+◌, ◌≤◌, String, ◌≡◌, ap, ◌∙◌, inl, inr, Bool, true,
  ◌&&◌, ◌||◌, Option, none, some, arith,
}
use leftovers.Models.Payload.{
  Json, null, bool, int, real, text, arr, obj, Items, nil, cons, Fields, end, field,
}
use leftovers.Runner.Complexity.{
  most_nodes, most_depth, most_fields, most_items, count_items, count_fields, unless_over, and_then,
  count, visit, visit_items, visit_fields, is_found, is_simple,
}

abbrev larger : ℕ → ℕ → ℕ
larger a b = if leb a b then b else a

-- How many values a value holds, itself counted.
unfoldable mutual
  pub size : Json → ℕ
  size (obj fields) = suc (size_fields fields)
  size (arr xs) = suc (size_items xs)
  size v = 1

  pub size_items : Items → ℕ
  size_items nil = 0
  size_items (cons x xs) = size x + size_items xs

  pub size_fields : Fields → ℕ
  size_fields end = 0
  size_fields (field name v rest) = size v + size_fields rest

-- How deep the values in it lie.
unfoldable mutual
  pub height : Json → ℕ
  height (obj fields) = height_fields fields
  height (arr xs) = height_items xs
  height v = 0

  pub height_items : Items → ℕ
  height_items nil = 0
  height_items (cons x xs) = larger (suc (height x)) (height_items xs)

  pub height_fields : Fields → ℕ
  height_fields end = 0
  height_fields (field name v rest) = larger (suc (height v)) (height_fields rest)

-- Whether no object and no array in it is too long, and every number in it is finite.
unfoldable mutual
  pub shaped : (String → Bool) → Json → Bool
  shaped is_finite (obj fields) =
      leb (count_fields fields) most_fields && shaped_fields is_finite fields
  shaped is_finite (arr xs) = leb (count_items xs) most_items && shaped_items is_finite xs
  shaped is_finite (real literal) = is_finite literal
  shaped is_finite v = true

  pub shaped_items : (String → Bool) → Items → Bool
  shaped_items is_finite nil = true
  shaped_items is_finite (cons x xs) = shaped is_finite x && shaped_items is_finite xs

  pub shaped_fields : (String → Bool) → Fields → Bool
  shaped_fields is_finite end = true
  shaped_fields is_finite (field name v rest) = shaped is_finite v && shaped_fields is_finite rest

abbrev some_if : Bool → ℕ → Option ℕ
some_if test n = if test then some n else none

-- What a container and a row of values come to, their parts being known.
container-eq :
    (nodes depth len limit below deep : ℕ) (fine : Bool) (rest : ℕ → Option ℕ)
    → (suc nodes ≤ most_nodes
        → suc depth ≤ suc most_depth
        → rest (suc nodes)
          ≡ some_if
              (leb (suc nodes + below) most_nodes
                && leb (suc depth + deep) (suc most_depth)
                && fine)
              (suc nodes + below))
    → and_then (count depth nodes) (λ n. and_then (unless_over (ltb limit len) n) rest)
      ≡ some_if
          (leb (nodes + suc below) most_nodes
            && leb (depth + deep) most_depth
            && (leb len limit && fine))
          (nodes + suc below)
container-eq nodes depth len limit below deep fine rest h =
    elim (Bool-cases (ltb most_nodes (suc nodes) || ltb most_depth depth)) [
      | inl over ↦ ground arith
      | inr within ↦
          let known = h (ground arith) (ground arith) in
          elim (Bool-cases (ltb limit len)) [ inl long ↦ ground arith | inr short ↦ ground arith ]
    ]

row-eq :
    (nodes depth here below tall deep : ℕ) (good fine : Bool) (rest : ℕ → Option ℕ)
    → (nodes + here ≤ most_nodes
        → rest (nodes + here)
          ≡ some_if
              (leb (nodes + here + below) most_nodes && leb (depth + deep) (suc most_depth) && fine)
              (nodes + here + below))
    → and_then
        (some_if
          (leb (nodes + here) most_nodes && leb (depth + tall) most_depth && good)
          (nodes + here))
        rest
      ≡ some_if
          (leb (nodes + (here + below)) most_nodes
            && leb (depth + larger (suc tall) deep) (suc most_depth)
            && (good && fine))
          (nodes + (here + below))
row-eq nodes depth here below tall deep good fine rest h =
    elim (Bool-cases (leb (nodes + here) most_nodes && leb (depth + tall) most_depth && good)) [
      | inl within ↦ let known = h (ground arith) in ground arith
      | inr over ↦ ground arith
    ]

-- The walk in closed form.
mutual
  unfolding visit size height shaped

  visit-eq :
      (is_finite : String → Bool) (v : Json) (depth nodes : ℕ)
      → visit is_finite v depth nodes
        ≡ some_if
            (leb (nodes + size v) most_nodes
              && leb (depth + height v) most_depth
              && shaped is_finite v)
            (nodes + size v)
  visit-eq is_finite (obj fields) depth nodes =
      container-eq nodes depth (count_fields fields) most_fields (size_fields fields)
        (height_fields fields) (shaped_fields is_finite fields) _
        (visit_fields-eq is_finite fields (suc depth) (suc nodes))
  visit-eq is_finite (arr xs) depth nodes =
      container-eq nodes depth (count_items xs) most_items (size_items xs) (height_items xs)
        (shaped_items is_finite xs) _ (visit_items-eq is_finite xs (suc depth) (suc nodes))
  visit-eq is_finite (real literal) depth nodes = ground arith
  visit-eq is_finite null depth nodes = ground arith
  visit-eq is_finite (bool b) depth nodes = ground arith
  visit-eq is_finite (int n) depth nodes = ground arith
  visit-eq is_finite (text s) depth nodes = ground arith

  visit_items-eq :
      (is_finite : String → Bool) (xs : Items) (depth nodes : ℕ)
      → nodes ≤ most_nodes
      → depth ≤ suc most_depth
      → visit_items is_finite xs depth nodes
        ≡ some_if
            (leb (nodes + size_items xs) most_nodes
              && leb (depth + height_items xs) (suc most_depth)
              && shaped_items is_finite xs)
            (nodes + size_items xs)
  visit_items-eq is_finite nil depth nodes h k = ground arith
  visit_items-eq is_finite (cons x xs) depth nodes h k = rw (visit-eq is_finite x depth nodes) (
      row-eq nodes depth (size x) (size_items xs) (height x) (height_items xs) (shaped is_finite x)
        (shaped_items is_finite xs) _ (λ m. visit_items-eq is_finite xs depth (nodes + size x) m k))

  visit_fields-eq :
      (is_finite : String → Bool) (fields : Fields) (depth nodes : ℕ)
      → nodes ≤ most_nodes
      → depth ≤ suc most_depth
      → visit_fields is_finite fields depth nodes
        ≡ some_if
            (leb (nodes + size_fields fields) most_nodes
              && leb (depth + height_fields fields) (suc most_depth)
              && shaped_fields is_finite fields)
            (nodes + size_fields fields)
  visit_fields-eq is_finite end depth nodes h k = ground arith
  visit_fields-eq is_finite (field name v rest) depth nodes h k =
      rw (visit-eq is_finite v depth nodes) (
        row-eq nodes depth (size v) (size_fields rest) (height v) (height_fields rest)
          (shaped is_finite v) (shaped_fields is_finite rest) _
          (λ m. visit_fields-eq is_finite rest depth (nodes + size v) m k))

is_found-some_if :
    (s h : ℕ) (fine : Bool)
    → is_found (some_if (leb (0 + s) most_nodes && leb (0 + h) most_depth && fine) (0 + s))
      ≡ (leb s most_nodes && leb h most_depth && fine)
is_found-some_if s h fine = ground arith

-- A value is accepted exactly if it holds at most 5000 values, none of them deeper than 20, no object
-- of more than 100 fields, no array of more than 1000 items and no number that is not finite.
pub is_simple-eq :
    (is_finite : String → Bool) (v : Json)
    → is_simple is_finite v
      ≡ (leb (size v) most_nodes && leb (height v) most_depth && shaped is_finite v)
unfolding is_simple
is_simple-eq is_finite v =
    ap is_found (visit-eq is_finite v 0 0)
    ∙ is_found-some_if (size v) (height v) (shaped is_finite v)
