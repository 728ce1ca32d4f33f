-- ===== src/Runner/Complexity.antt =====
-- `_validate_json_complexity` of src/leftovers/runner.py: how large a value an agent may send.
pub mod Laws
use leftovers.Base.{
  ltb, if◌then◌else◌, ℕ, suc, String, Bool, true, false, not, ◌||◌, Option, none, some,
}
use leftovers.Models.Payload.{Json, real, arr, obj, Items, nil, cons, Fields, end, field}

abbrev pub most_nodes : ℕ
most_nodes = 5000

abbrev pub most_depth : ℕ
most_depth = 20

abbrev pub most_fields : ℕ
most_fields = 100

abbrev pub most_items : ℕ
most_items = 1000

abbrev pub count_items : Items → ℕ
count_items nil = 0
count_items (cons x xs) = suc (count_items xs)

abbrev pub count_fields : Fields → ℕ
count_fields end = 0
count_fields (field name v rest) = suc (count_fields rest)

abbrev pub unless_over : Bool → ℕ → Option ℕ
unless_over over n = if over then none else some n

abbrev pub and_then : Option ℕ → (ℕ → Option ℕ) → Option ℕ
and_then none next = none
and_then (some n) next = next n

-- A node is counted, and refused where it is one too many or too deep.
abbrev pub count : ℕ → ℕ → Option ℕ
count depth nodes = unless_over (ltb most_nodes (suc nodes) || ltb most_depth depth) (suc nodes)

-- `nodes` before a value at a depth gives `nodes` after it, and nothing where the code raises. The
-- keys of an object are texts, as JSON has it.
unfoldable mutual
  pub visit : (String → Bool) → Json → ℕ → ℕ → Option ℕ
  visit is_finite (obj fields) depth nodes = and_then (count depth nodes) (λ n.
      and_then (unless_over (ltb most_fields (count_fields fields)) n)
        (visit_fields is_finite fields (suc depth)))
  visit is_finite (arr xs) depth nodes = and_then (count depth nodes) (λ n.
      and_then (unless_over (ltb most_items (count_items xs)) n)
        (visit_items is_finite xs (suc depth)))
  visit is_finite (real literal) depth nodes =
      and_then (count depth nodes) (unless_over (not (is_finite literal)))
  visit is_finite v depth nodes = count depth nodes

  pub visit_items : (String → Bool) → Items → ℕ → ℕ → Option ℕ
  visit_items is_finite nil depth nodes = some nodes
  visit_items is_finite (cons x xs) depth nodes =
      and_then (visit is_finite x depth nodes) (visit_items is_finite xs depth)

  pub visit_fields : (String → Bool) → Fields → ℕ → ℕ → Option ℕ
  visit_fields is_finite end depth nodes = some nodes
  visit_fields is_finite (field name v rest) depth nodes =
      and_then (visit is_finite v depth nodes) (visit_fields is_finite rest depth)

abbrev pub is_found : Option ℕ → Bool
is_found none = false
is_found (some n) = true

-- Whether the value is accepted.
unfoldable pub is_simple : (String → Bool) → Json → Bool
unfolding visit
is_simple is_finite v = is_found (visit is_finite v 0 0)
