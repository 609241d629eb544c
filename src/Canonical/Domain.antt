-- ===== src/Canonical/Domain.antt =====
-- `canonicalization_errors` of canonical_json.py.
use workspace_governance_con.Prelude.{
  ℕ, suc, Bool, false, ◌&&◌, ◌||◌, List, [], ◌∷◌, ◌++◌, String, leb, ltb, if◌then◌else◌,
}
use workspace_governance_con.Prelude.Int.{ℤ, pos_part, neg_part}
use workspace_governance_con.Value.{
  Value, Items, Fields, null, bool, int, float, text, list, dict, nil, cons, end, field,
}
use Prim.Native.Char.{code}

abbrev pub max_safe_integer : ℕ
max_safe_integer = 9_007_199_254_740_991

-- A step of the path that a message names: f"[{index}]", f"[{key!r}]" or " key".
pub data Step : Type 0 where
  at_index : ℕ → Step
  at_key : String → Step
  the_key : Step

pub data Violation : Type 0 where
  lone_surrogate floating_point unsafe_integer : List Step → Violation

has_surrogate : String → Bool
has_surrogate String.[] = false
has_surrogate (String.◌∷◌ c s) = (leb 55296 (code c) && leb (code c) 57343) || has_surrogate s

-- `abs(value) > MAX_SAFE_INTEGER`
is_unsafe : ℤ → Bool
is_unsafe n = ltb max_safe_integer (pos_part n) || ltb max_safe_integer (neg_part n)

unfoldable pub text_errors : String → List Step → List Violation
unfolding has_surrogate
text_errors s path = if has_surrogate s then lone_surrogate path ∷ [] else []

unfoldable pub int_errors : ℤ → List Step → List Violation
unfolding is_unsafe
int_errors n path = if is_unsafe n then unsafe_integer path ∷ [] else []

-- The keys of an object of the model are texts, and its values are JSON values: the two other messages
-- of the function are of no value here.
unfoldable mutual
  unfolding text_errors int_errors

  pub canonicalization_errors : Value → List Step → List Violation
  canonicalization_errors null path = []
  canonicalization_errors (bool b) path = []
  canonicalization_errors (int n) path = int_errors n path
  canonicalization_errors (float x) path = floating_point path ∷ []
  canonicalization_errors (text s) path = text_errors s path
  canonicalization_errors (list vs) path = items_errors vs 0 path
  canonicalization_errors (dict fs) path = fields_errors fs path

  pub items_errors : Items → ℕ → List Step → List Violation
  items_errors nil index path = []
  items_errors (cons v vs) index path =
      canonicalization_errors v (path ++ at_index index ∷ []) ++ items_errors vs (suc index) path

  pub fields_errors : Fields → List Step → List Violation
  fields_errors end path = []
  fields_errors (field k v fs) path =
      text_errors k (path ++ the_key ∷ [])
      ++ (canonicalization_errors v (path ++ at_key k ∷ []) ++ fields_errors fs path)
