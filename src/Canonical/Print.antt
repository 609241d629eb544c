-- ===== src/Canonical/Print.antt =====
-- `canonical_json_bytes`, `sha256_digest` and `canonical_digest` of canonical_json.py. The bytes are
-- the UTF-8 of the text that stands for them here.
use workspace_governance_con.Prelude.{
  ℕ, ◌+◌, ◌-◌, ◌/◌, ◌%◌, Bool, true, false, ◌&&◌, ◌||◌, Option, none, some, List, [], ◌∷◌, String,
  ltb, ◌==◌, if◌then◌else◌,
}
use workspace_governance_con.Prelude.Sorting.{sort_by}
use workspace_governance_con.Value.{
  Value, Items, Fields, null, bool, int, float, text, list, dict, nil, cons, end, field,
}
use workspace_governance_con.Platform.{Platform}
use workspace_governance_con.Canonical.Domain.{Violation, canonicalization_errors}
use Prim.Native.Char.{code}
use Prim.Native.String.{◌++◌ as ◌<>◌}

-- `str.encode("utf-16be")`, by code units.
utf_16 : String → List ℕ
utf_16 String.[] = []
utf_16 (String.◌∷◌ c s) =
    let rest = utf_16 s in
    if ltb (code c) 65536
    then code c ∷ rest
    else (55296 + (code c - 65536) / 1024) ∷ (56320 + (code c - 65536) % 1024) ∷ rest

units_le : List ℕ → List ℕ → Bool
units_le [] ys = true
units_le (x ∷ xs) [] = false
units_le (x ∷ xs) (y ∷ ys) = ltb x y || (x == y && units_le xs ys)

unfoldable pub key_le : String × String → String × String → Bool
unfolding utf_16 units_le
key_le a b = units_le (utf_16 a.0) (utf_16 b.0)

-- `separator.join(texts)` with a comma.
unfoldable pub commas : List String → String
commas [] = ""
commas (s ∷ []) = s
commas (s ∷ t ∷ rest) = s <> "," <> commas (t ∷ rest)

-- The values of an object, each after its printed key.
abbrev pub printed : List (String × String) → List String
printed [] = []
printed ((k, s) ∷ rest) = s ∷ printed rest

abbrev pub both {ℓ κ μ} :
    {A : Type ℓ} {B : Type κ} {C : Type μ} → (A → B → C) → Option A → Option B → Option C
both f none b = none
both f (some a) none = none
both f (some a) (some b) = some (f a b)

abbrev pub wrapped : String → String → Option String → Option String
wrapped l r none = none
wrapped l r (some s) = some (l <> s <> r)

abbrev pub joined_items : Option (List String) → Option String
joined_items none = none
joined_items (some ss) = some (commas ss)

unfoldable pub joined_fields : Option (List (String × String)) → Option String
unfolding key_le commas
joined_fields none = none
joined_fields (some es) = some (commas (printed (sort_by key_le es)))

module _ (p : Platform) where
  -- The branches of the function, after its check; `none` is its last `ValueError`.
  unfoldable mutual
    unfolding joined_fields commas

    pub json_text : Value → Option String
    json_text null = some "null"
    json_text (bool true) = some "true"
    json_text (bool false) = some "false"
    json_text (int n) = some (p.repr (int n))
    json_text (float x) = none
    json_text (text s) = some (p.quoted s)
    json_text (list vs) = wrapped "[" "]" (joined_items (json_items vs))
    json_text (dict fs) = wrapped "{" "}" (joined_fields (json_fields fs))

    pub json_items : Items → Option (List String)
    json_items nil = some []
    json_items (cons v vs) = both (λ s ss. s ∷ ss) (json_text v) (json_items vs)

    pub json_fields : Fields → Option (List (String × String))
    json_fields end = some []
    json_fields (field k v fs) =
        both (λ s es. (k, p.quoted k <> ":" <> s) ∷ es) (json_text v) (json_fields fs)

  unfoldable pub after_check : List Violation → Value → Option String
  unfolding json_text
  after_check [] value = json_text value
  after_check (_ ∷ _) value = none

  -- The check of a part finds nothing where that of the whole did: it stands once.
  unfoldable pub canonical_json : Value → Option String
  unfolding after_check canonicalization_errors
  canonical_json value = after_check (canonicalization_errors value []) value

  digest_of : Option String → Option String
  digest_of none = none
  digest_of (some s) = some ("sha256:" <> p.sha256_hex s)

  unfoldable pub canonical_digest : Value → Option String
  unfolding digest_of canonical_json
  canonical_digest value = digest_of (canonical_json value)
