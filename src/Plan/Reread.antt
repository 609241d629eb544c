-- ===== src/Plan/Reread.antt =====
-- Reading the path of a changed-file target again, with `_normalize_changed_file_target` of
-- validation_planning.py.
use workspace_governance_con.Prelude.{
  ◌≡◌, ◌≢◌, refl, ap, sym, ◌∙◌, Bool, false, ◌||◌, ◌==◌, List, [], ◌∷◌, String, str_eq, contains,
  filter, Bool-cases, eq_iff, inl, inr, All, if◌then◌else◌,
}
use mathlib.Core.Path.{subst}
use workspace_governance_con.Prelude.Text.{is_empty, strip, slashes, remove_prefix, join}
use workspace_governance_con.Prelude.Affixes.{remove_prefix-append}
use workspace_governance_con.Prelude.Result.{Result, ok, err}
use workspace_governance_con.Plan.Path.{slash, on_first, split, is_part, parts, is_absolute}
use workspace_governance_con.Plan.Model.{ValidationTarget, PlanError, no_relative_path}
use workspace_governance_con.Plan.Targets.{changed_file_target, normalize_changed_file_target}
use workspace_governance_con.Plan.Relative.{
  IsRelativePath, path_target, changed_file_target-IsRelativePath, accepted_text,
}
use Prim.Native.Char.{Char, code}
use Prim.Native.String.{◌++◌ as ◌<>◌}
use text.Mathlib.TextLemmas.{nil-append, cons-append}

-- The second half of the function, on the text of the path.
abbrev of_path : String → Result PlanError ValidationTarget
of_path path =
    if is_empty path || str_eq path "." then err no_relative_path else ok (path_target path)

has_parts-is_empty : (s : String) → parts s ≢ [] → is_empty s ≡ false
unfolding parts
has_parts-is_empty String.[] h = absurd (h refl)
has_parts-is_empty (String.◌∷◌ c s) h = refl

dot-parts : parts "." ≡ []
unfolding parts
dot-parts = refl

has_parts-dot : (s : String) → parts s ≢ [] → str_eq s "." ≡ false
has_parts-dot s h = elim (Bool-cases (str_eq s ".")) [
  | inl e ↦ absurd (h (ap parts ((eq_iff s ".").0 e) ∙ dot-parts))
  | inr e ↦ e
]

unguarded :
    (a e c d : Bool) (s : String)
    → a ≡ false
    → e ≡ false
    → c ≡ false
    → d ≡ false
    → (if a || e || c
        then err no_relative_path
        else if e || d
        then err no_relative_path
        else ok (path_target s))
      ≡ ok (path_target s)
unguarded a e c d s p q r t = rw (p, q, r, t)

relative-target : (s : String) → IsRelativePath s → changed_file_target s ≡ ok (path_target s)
unfolding changed_file_target
relative-target s r =
    ap
      (λ path.
        if is_absolute s || is_empty s || contains ".." (parts s)
        then err no_relative_path
        else of_path path)
      r.normal
    ∙ unguarded (is_absolute s) (is_empty s) (contains ".." (parts s)) (str_eq s ".") s r.relative
        (has_parts-is_empty s r.named) r.stays (has_parts-dot s r.named)

All-filter :
    (P : String → Type 0) (keep : String → Bool) (ws : List String)
    → All P ws
    → All P (filter keep ws)
All-filter P keep [] h = tt
All-filter P keep (w ∷ ws) h = elim (Bool-cases (keep w)) [
  | inl e ↦ rw e ((h.0, All-filter P keep ws h.1))
  | inr e ↦ rw e (All-filter P keep ws h.1)
]

-- No character of the text is a backslash.
abbrev IsSlashed : String → Type 0
IsSlashed String.[] = Unit
IsSlashed (String.◌∷◌ c s) = (code c == 92 ≡ false) × IsSlashed s

slashes-IsSlashed : (s : String) → IsSlashed (slashes s)
unfolding slashes
slashes-IsSlashed String.[] = tt
slashes-IsSlashed (String.◌∷◌ c s) = elim (Bool-cases (code c == 92)) [
  | inl e ↦ rw e ((refl, slashes-IsSlashed s))
  | inr e ↦ rw e ((e, slashes-IsSlashed s))
]

slashed_same : (s : String) → IsSlashed s → slashes s ≡ s
unfolding slashes
slashed_same String.[] h = refl
slashed_same (String.◌∷◌ c s) h = rw h.0 (ap (String.◌∷◌ c) (slashed_same s h.1))

on_first-IsSlashed :
    (c : Char) (ws : List String)
    → code c == 92 ≡ false
    → All IsSlashed ws
    → All IsSlashed (on_first c ws)
on_first-IsSlashed c [] e h = ((e, tt), tt)
on_first-IsSlashed c (w ∷ ws) e h = ((e, h.0), h.1)

split-IsSlashed : (s : String) → IsSlashed s → All IsSlashed (split s)
unfolding split
split-IsSlashed String.[] h = (tt, tt)
split-IsSlashed (String.◌∷◌ c s) h = elim (Bool-cases (code c == slash)) [
  | inl e ↦ rw e ((tt, split-IsSlashed s h.1))
  | inr e ↦ rw e (on_first-IsSlashed c (split s) h.0 (split-IsSlashed s h.1))
]

parts-IsSlashed : (s : String) → IsSlashed s → All IsSlashed (parts s)
unfolding parts
parts-IsSlashed s h = All-filter IsSlashed is_part (split s) (split-IsSlashed s h)

append-IsSlashed : (s t : String) → IsSlashed s → IsSlashed t → IsSlashed (s <> t)
append-IsSlashed String.[] t h k = subst IsSlashed (sym (nil-append t)) k
append-IsSlashed (String.◌∷◌ c s) t h k =
    subst IsSlashed (sym (cons-append c s t)) (h.0, append-IsSlashed s t h.1 k)

join-IsSlashed : (ws : List String) → All IsSlashed ws → IsSlashed (join "/" ws)
unfolding join
join-IsSlashed [] h = tt
join-IsSlashed (w ∷ []) h = h.0
join-IsSlashed (w ∷ v ∷ ws) h =
    append-IsSlashed w ("/" <> join "/" (v ∷ ws)) h.0
      (append-IsSlashed "/" (join "/" (v ∷ ws)) (refl, tt) (join-IsSlashed (v ∷ ws) h.1))

-- The path of a target has no backslash.
target-IsSlashed :
    (raw : String) (t : ValidationTarget)
    → changed_file_target (slashes raw) ≡ ok t
    → IsSlashed t.target_id
target-IsSlashed raw t h =
    subst IsSlashed (sym (accepted_text (slashes raw) t h))
      (join-IsSlashed (parts (slashes raw)) (parts-IsSlashed (slashes raw) (slashes-IsSlashed raw)))

-- The scope of a changed-file target that is accepted, read again, gives the same target, unless its path
-- starts or ends with a blank, which the second reading would strip.
pub normalize_changed_file_target-again :
    (scope : String) (t : ValidationTarget)
    → normalize_changed_file_target scope ≡ ok t
    → strip t.target_id ≡ t.target_id
    → normalize_changed_file_target t.scope ≡ ok t
unfolding normalize_changed_file_target
normalize_changed_file_target-again scope t h unblank =
    let raw = strip (remove_prefix "changed-file:" scope) in
    let (r, same) = changed_file_target-IsRelativePath (slashes raw) t h in
    let rest : remove_prefix "changed-file:" t.scope ≡ t.target_id =
      ap (λ u. remove_prefix "changed-file:" u.scope) (sym same)
      ∙ remove_prefix-append "changed-file:" t.target_id in
    ap changed_file_target
      (ap slashes (ap strip rest ∙ unblank) ∙ slashed_same t.target_id (target-IsSlashed raw t h))
    ∙ (relative-target t.target_id r ∙ ap ok same)
