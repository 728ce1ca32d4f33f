-- ===== src/Models/Payload.antt =====
-- JSON values, as `json.loads` returns them; a number with a fraction keeps its literal.
use leftovers.Base.Text.{str_eq}
use leftovers.Base.{if◌then◌else◌, String, Bool, true, false, not, Option, none, some}
use leftovers.Base.Int.{ℤ, pos, eqb_ℤ}

mutual
  pub data Json : Type 0 where
    null : Json
    bool : Bool → Json
    int : ℤ → Json
    real : String → Json
    text : String → Json
    arr : Items → Json
    obj : Fields → Json

  pub data Items : Type 0 where
    nil : Items
    cons : Json → Items → Items

  pub data Fields : Type 0 where
    end : Fields
    field : String → Json → Fields → Fields

-- `payload.get(key)`: a payload is an object whose keys differ.
abbrev pub get_field : String → Fields → Option Json
get_field key end = none
get_field key (field name v rest) = if str_eq name key then some v else get_field key rest

abbrev pub get : String → Json → Option Json
get key (obj fields) = get_field key fields
get key _ = none

-- `payload.get(key) is True`.
abbrev pub is_true : Option Json → Bool
is_true (some (bool b)) = b
is_true _ = false

-- `not (value or [])`; a number with a fraction is false if it is zero.
abbrev pub is_falsy : (String → Bool) → Option Json → Bool
is_falsy is_zero none = true
is_falsy is_zero (some null) = true
is_falsy is_zero (some (bool b)) = not b
is_falsy is_zero (some (int n)) = eqb_ℤ n (pos 0)
is_falsy is_zero (some (real literal)) = is_zero literal
is_falsy is_zero (some (text s)) = str_eq s ""
is_falsy is_zero (some (arr nil)) = true
is_falsy is_zero (some (arr (cons x xs))) = false
is_falsy is_zero (some (obj end)) = true
is_falsy is_zero (some (obj (field name x xs))) = false

abbrev pub is_object : Json → Bool
is_object (obj fields) = true
is_object _ = false

abbrev pub is_bool : Option Json → Bool
is_bool (some (bool b)) = true
is_bool _ = false

abbrev pub is_text : Option Json → Bool
is_text (some (text s)) = true
is_text _ = false
