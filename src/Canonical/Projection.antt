-- ===== src/Canonical/Projection.antt =====
-- `delivery_art_content_projection` of canonical_json.py, and `_content_projection` of
-- agent_action_policy.py. A copy of a value is the value.
use workspace_governance_con.Prelude.{
  ◌≡◌, refl, String, str_eq, Bool-cases, inl, inr, if◌then◌else◌, eq_iff,
}
use workspace_governance_con.Value.{Value, Fields, dict, end, field, get}

-- `fields.pop(key, None)`
unfoldable pub removed : String → Fields → Fields
removed k end = end
removed k (field j v fs) = let rest = removed k fs in if str_eq k j then rest else field j v rest

-- `integrity.pop("content_digest", None)` where `integrity` is an object.
unfoldable pub without_digest : Value → Value
unfolding removed
without_digest (dict fs) = dict (removed "content_digest" fs)
without_digest v = v

-- An entry's value replaced in its place.
unfoldable pub changed : (Value → Value) → String → Fields → Fields
changed f k end = end
changed f k (field j v fs) =
    let rest = changed f k fs in if str_eq k j then field j (f v) rest else field j v rest

-- `_content_projection`
unfoldable pub content_projection : Fields → Fields
unfolding changed without_digest
content_projection artifact = changed without_digest "integrity" artifact

-- `projection["custody"] = {"supersedes": …}` comes last, as in a dict.
appended : Fields → String → Value → Fields
appended end k v = field k v end
appended (field j w fs) k v = field j w (appended fs k v)

superseding : Value → Fields → Fields
unfolding appended
superseding (dict old) rest = appended rest "custody" (dict (field "supersedes" (dict old) end))
superseding _ rest = rest

kept_custody : Value → Fields → Fields
unfolding superseding get
kept_custody (dict custody) rest = superseding (get custody "supersedes") rest
kept_custody _ rest = rest

unfoldable pub delivery_art_content_projection : Fields → Fields
unfolding kept_custody removed content_projection get
delivery_art_content_projection payload =
    content_projection (kept_custody (get payload "custody") (removed "custody" payload))

removed-removed : (k : String) (fs : Fields) → removed k (removed k fs) ≡ removed k fs
unfolding removed
removed-removed k end = refl
removed-removed k (field j v fs) = elim (Bool-cases (str_eq k j)) [
  | inl same ↦ rw same (removed-removed k fs)
  | inr other ↦ rw (other, other, removed-removed k fs)
]

without_digest-twice : (v : Value) → without_digest (without_digest v) ≡ without_digest v
unfolding without_digest
without_digest-twice (dict fs) = rw removed-removed
without_digest-twice (Value.null) = refl
without_digest-twice (Value.bool b) = refl
without_digest-twice (Value.int n) = refl
without_digest-twice (Value.float x) = refl
without_digest-twice (Value.text s) = refl
without_digest-twice (Value.list vs) = refl

-- Changing an entry whose change does nothing a second time.
changed-changed :
    (f g : Value → Value) (k : String) (fs : Fields)
    → ((v : Value) → g (f v) ≡ g v)
    → changed g k (changed f k fs) ≡ changed g k fs
unfolding changed
changed-changed f g k end h = refl
changed-changed f g k (field j v fs) h = elim (Bool-cases (str_eq k j)) [
  | inl same ↦ rw (same, same, changed-changed f g k fs h, h)
  | inr other ↦ rw (other, other, changed-changed f g k fs h)
]

-- `fields[key] = value`
unfoldable pub put : String → Value → Fields → Fields
put k v end = field k v end
put k v (field j w fs) =
    let rest = put k v fs in if str_eq k j then field j v fs else field j w rest

-- `integrity["content_digest"] = digest` where `integrity` is an object.
unfoldable pub fill : String → Value → Value
unfolding put
fill digest (dict fs) = dict (put "content_digest" (Value.text digest) fs)
fill digest v = v

-- `record["integrity"]["content_digest"] = digest`
unfoldable pub with_digest : String → Fields → Fields
unfolding changed fill
with_digest digest artifact = changed (fill digest) "integrity" artifact

removed-put : (k : String) (v : Value) (fs : Fields) → removed k (put k v fs) ≡ removed k fs
unfolding removed put
removed-put k v end = rw ((eq_iff k k).1 refl)
removed-put k v (field j w fs) = elim (Bool-cases (str_eq k j)) [
  | inl same ↦ rw (same, same)
  | inr other ↦ rw (other, other, removed-put k v fs)
]

without_digest-fill : (d : String) (v : Value) → without_digest (fill d v) ≡ without_digest v
unfolding fill without_digest
without_digest-fill d (dict fs) = rw removed-put
without_digest-fill d Value.null = refl
without_digest-fill d (Value.bool b) = refl
without_digest-fill d (Value.int n) = refl
without_digest-fill d (Value.float x) = refl
without_digest-fill d (Value.text s) = refl
without_digest-fill d (Value.list vs) = refl

-- The content of an artifact is that of the artifact with any content digest filled in, and projecting
-- it once more changes nothing: the digest of the content can be checked after it was written.
pub content_projection-with_digest :
    (digest : String) (artifact : Fields)
    → (content_projection (with_digest digest artifact) ≡ content_projection artifact)
      × (content_projection (content_projection artifact) ≡ content_projection artifact)
unfolding content_projection with_digest
content_projection-with_digest digest artifact = (
  changed-changed (fill digest) without_digest "integrity" artifact (without_digest-fill digest),
  changed-changed without_digest without_digest "integrity" artifact without_digest-twice,
)
