-- ===== src/Equality.antt =====
-- Python's `==` on dynamic values, and `in` on a list of them.
use workspace_governance_con.Prelude.{
  ℕ, suc, Bool, true, false, ◌&&◌, none, some, str_eq, ◌==◌, if◌then◌else◌,
}
use workspace_governance_con.Prelude.Int.{ℤ, pos, negsuc}
use workspace_governance_con.Value.{
  Value, Items, Fields, null, bool, int, float, text, list, dict, nil, cons, end, field, find,
}

abbrev int_eq : ℤ → ℤ → Bool
int_eq (pos a) (pos b) = a == b
int_eq (negsuc a) (negsuc b) = a == b
int_eq _ _ = false

-- `True` is 1 and `False` is 0.
abbrev of_bool : Bool → ℤ
of_bool true = pos 1
of_bool false = pos 0

abbrev count : Fields → ℕ
count end = 0
count (field _ _ fs) = suc (count fs)

-- The comparison with a float, which is the interpreter's, is the argument `float_eq`.
module _ (float_eq : Value → Value → Bool) where
  number_eq : ℤ → Value → Bool
  number_eq n (int m) = int_eq n m
  number_eq n (bool b) = int_eq n (of_bool b)
  number_eq n (float x) = float_eq (int n) (float x)
  number_eq n _ = false

  unfoldable mutual
    unfolding number_eq find

    pub value_eq : Value → Value → Bool
    value_eq null null = true
    value_eq (bool b) w = number_eq (of_bool b) w
    value_eq (int n) w = number_eq n w
    value_eq (float x) w = float_eq (float x) w
    value_eq (text s) (text t) = str_eq s t
    value_eq (list vs) (list ws) = items_eq vs ws
    value_eq (dict fs) (dict gs) = count fs == count gs && fields_eq fs gs
    value_eq _ _ = false

    pub items_eq : Items → Items → Bool
    items_eq nil nil = true
    items_eq (cons v vs) (cons w ws) = value_eq v w && items_eq vs ws
    items_eq _ _ = false

    -- Each entry of the first has an equal one in the second.
    pub fields_eq : Fields → Fields → Bool
    fields_eq end gs = true
    fields_eq (field k v fs) gs =
        (elim (find gs k) [ none ↦ false | some w ↦ value_eq v w ]) && fields_eq fs gs

  -- `value in values`
  unfoldable pub member : Value → Items → Bool
  unfolding value_eq
  member v nil = false
  member v (cons w ws) = if value_eq v w then true else member v ws
