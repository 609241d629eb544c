-- ===== src/Value.antt =====
-- The dynamic values that the program reads: what `json.loads` and `yaml.safe_load` return, without
-- dates. `isinstance` tests are matches, and `dict.get` returns `null` on a missing key, as Python's
-- `None`. A finite float is held by what the program reads of it: `str()`, its
-- truth and `int()`.
use workspace_governance_con.Prelude.{
  zero, Bool, true, false, not, Option, none, some, List, [], ◌∷◌, map, String, str_eq,
  if◌then◌else◌,
}
use workspace_governance_con.Prelude.Int.{ℤ, pos}
use workspace_governance_con.Prelude.Text.{parse_int, is_empty}

pub record Float : Type 0 where
  pub shown : String
  pub is_zero : Bool
  pub truncated : ℤ

mutual
  pub data Value : Type 0 where
    null : Value
    bool : Bool → Value
    int : ℤ → Value
    float : Float → Value
    text : String → Value
    list : Items → Value
    dict : Fields → Value

  pub data Items : Type 0 where
    nil : Items
    cons : Value → Items → Items

  pub data Fields : Type 0 where
    end : Fields
    field : String → Value → Fields → Fields

-- `dict.get(key)` with `none` for a missing key.
unfoldable pub find : Fields → String → Option Value
find end k = none
find (field j v rest) k = if str_eq k j then some v else find rest k

unfoldable pub or_null : Option Value → Value
or_null none = null
or_null (some v) = v

unfoldable pub get : Fields → String → Value
unfolding find or_null
get fields k = or_null (find fields k)

unfoldable pub is_null : Value → Bool
is_null null = true
is_null _ = false

abbrev is_zero_ℤ : ℤ → Bool
is_zero_ℤ (pos zero) = true
is_zero_ℤ _ = false

-- Python's truth of a value, `bool(value)`.
unfoldable pub truthy : Value → Bool
truthy null = false
truthy (bool b) = b
truthy (int n) = not (is_zero_ℤ n)
truthy (float x) = not x.is_zero
truthy (text s) = not (is_empty s)
truthy (list nil) = false
truthy (list (cons _ _)) = true
truthy (dict end) = false
truthy (dict (field _ _ _)) = true

-- `a or b` on values.
unfoldable pub or_else : Value → Value → Value
unfolding truthy
or_else a b = if truthy a then a else b

unfoldable pub items_of : Items → List Value
items_of nil = []
items_of (cons v rest) = v ∷ items_of rest

-- `int(value)`, where `none` is a `TypeError` or a `ValueError`.
unfoldable pub to_int : Value → Option ℤ
unfolding parse_int
to_int null = none
to_int (bool true) = some (pos 1)
to_int (bool false) = some (pos 0)
to_int (int n) = some n
to_int (float x) = some x.truncated
to_int (text s) = parse_int s
to_int (list _) = none
to_int (dict _) = none

unfoldable pub from_list : List Value → Items
from_list [] = nil
from_list (v ∷ rest) = cons v (from_list rest)

-- A list of texts as a value.
unfoldable pub texts : List String → Value
unfolding from_list
texts xs = list (from_list (map text xs))
