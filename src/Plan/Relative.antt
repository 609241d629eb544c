-- ===== src/Plan/Relative.antt =====
-- The paths of `PurePosixPath`: their text has their parts, and what a changed-file target holds.
use workspace_governance_con.Prelude.{
  ℕ, Option, none, some, ◌≡◌, ◌≢◌, refl, sym, ap, ◌∙◌, Bool, true, false, ◌==◌, List, [], ◌∷◌,
  String, str_eq, filter, contains, arith, All, inl, inr, Bool-cases, if◌then◌else◌,
}
use mathlib.Core.Path.{subst}
use workspace_governance_con.Prelude.Text.{join, starts_with, slashes, strip, remove_prefix}
use workspace_governance_con.Prelude.Result.{ok, guarded, ok-injective}
use workspace_governance_con.Plan.Path.{
  slash, on_first, split, is_part, parts, root_of, is_absolute, posix_text, dot_if_empty,
}
use workspace_governance_con.Plan.Model.{ValidationTarget, no_relative_path}
use workspace_governance_con.Plan.Targets.{changed_file_target, normalize_changed_file_target}
use Prim.Native.Char.{Char, char, code}
use text.Mathlib.TextLemmas.{nil-append, cons-append, append-nil}
use Prim.Native.String.{◌++◌ as ◌<>◌}

-- No character of the text is a slash.
abbrev pub IsSlashless : String → Type 0
IsSlashless String.[] = Unit
IsSlashless (String.◌∷◌ c s) = (code c == slash ≡ false) × IsSlashless s

-- A segment of a path: not empty, not ".", and without a slash.
abbrev pub IsSegment : String → Type 0
IsSegment s = (is_part s ≡ true) × IsSlashless s

on_first-All :
    (c : Char) (ws : List String)
    → code c == slash ≡ false
    → All IsSlashless ws
    → All IsSlashless (on_first c ws)
on_first-All c [] e h = ((e, tt), tt)
on_first-All c (w ∷ ws) e h = ((e, h.0), h.1)

split-All : (s : String) → All IsSlashless (split s)
unfolding split
split-All String.[] = (tt, tt)
split-All (String.◌∷◌ c s) = elim (Bool-cases (code c == slash)) [
  | inl e ↦ rw e ((tt, split-All s))
  | inr e ↦ rw e (on_first-All c (split s) e (split-All s))
]

kept-All : (ws : List String) → All IsSlashless ws → All IsSegment (filter is_part ws)
kept-All [] h = tt
kept-All (w ∷ ws) h = elim (Bool-cases (is_part w)) [
  | inl e ↦ rw e ((e, h.0), kept-All ws h.1)
  | inr e ↦ rw e (kept-All ws h.1)
]

pub parts-All : (s : String) → All IsSegment (parts s)
unfolding parts
parts-All s = kept-All (split s) (split-All s)

-- A segment in front of a slash, or alone.
split-cons :
    (c : Char) (w s : String) (ws : List String)
    → code c == slash ≡ false
    → split s ≡ w ∷ ws
    → split (String.◌∷◌ c s) ≡ String.◌∷◌ c w ∷ ws
unfolding split
split-cons c w s ws e h = rw (e, h)

split_nil : split "" ≡ "" ∷ []
unfolding split
split_nil = refl

split-segment : (s : String) → IsSlashless s → split s ≡ s ∷ []
split-segment String.[] h = split_nil
split-segment (String.◌∷◌ c s) h = split-cons c s s [] h.0 (split-segment s h.1)

slash-append : (t : String) → "/" <> t ≡ String.◌∷◌ (char 47 tt) t
slash-append t = cons-append (char 47 tt) "" t ∙ ap (String.◌∷◌ (char 47 tt)) (nil-append t)

split-slash : (t : String) → split (String.◌∷◌ (char 47 tt) t) ≡ "" ∷ split t
unfolding split
split-slash t = refl

split-append : (s t : String) → IsSlashless s → split (s <> ("/" <> t)) ≡ s ∷ split t
split-append String.[] t h = ap split (nil-append ("/" <> t) ∙ slash-append t) ∙ split-slash t
split-append (String.◌∷◌ c s) t h =
    ap split (cons-append c s ("/" <> t))
    ∙ split-cons c s (s <> ("/" <> t)) (split t) h.0 (split-append s t h.1)

only_part : (w : String) → IsSegment w → filter is_part (w ∷ []) ≡ w ∷ []
only_part w h = rw h.0

part_first :
    (w : String) (ws : List String) → IsSegment w → filter is_part (w ∷ ws) ≡ w ∷ filter is_part ws
part_first w ws h = rw h.0

-- The text of a list of segments has those parts.
pub parts-join : (ws : List String) → All IsSegment ws → parts (join "/" ws) ≡ ws
unfolding parts join
parts-join [] h = refl
parts-join (w ∷ []) h = ap (filter is_part) (split-segment w h.0.1) ∙ only_part w h.0
parts-join (w ∷ v ∷ ws) h =
    ap (filter is_part) (split-append w (join "/" (v ∷ ws)) h.0.1)
    ∙ (part_first w (split (join "/" (v ∷ ws))) h.0 ∙ ap (◌∷◌ w) (parts-join (v ∷ ws) h.1))

other_root :
    (n : ℕ) (o : Option String)
    → n == slash ≡ false
    → (elim (if 47 == n then o else none) as (λ _. Bool) [ none ↦ false | some _ ↦ true ]) ≡ false
other_root n o h = ground arith

absolute-append : (w t : String) → IsSegment w → is_absolute (w <> t) ≡ false
unfolding is_absolute starts_with
absolute-append String.[] t h = absurd (let e = h.0 in cc)
absolute-append (String.◌∷◌ c s) t h =
    rw (cons-append c s t) (other_root (code c) (some (s <> t)) h.1.0)

-- A path that is relative, in its normal form, and never leaves its root by "..".
pub record IsRelativePath (s : String) : Type 0 where
  pub relative : is_absolute s ≡ false
  pub named : parts s ≢ []
  pub stays : contains ".." (parts s) ≡ false
  pub normal : posix_text s ≡ s

-- No text that starts with a slash starts a text that does not.
other_start :
    (w : String) (c : Char) (s : String)
    → is_absolute (String.◌∷◌ c s) ≡ false
    → starts_with (String.◌∷◌ (char 47 tt) w) (String.◌∷◌ c s) ≡ false
unfolding is_absolute starts_with
other_start w c s h = elim (Bool-cases (47 == code c)) [
  | inl e ↦ absurd (ground arith)
  | inr e ↦ other_root (code c) _ (ground arith)
]

no_root :
    (a b c : Bool)
    → a ≡ false
    → b ≡ false
    → c ≡ false
    → Path String (if a then "/" else if b then "//" else if c then "/" else "") ""
no_root a b c e f g = rw (e, f, g)

root_of-relative : (s : String) → is_absolute s ≡ false → root_of s ≡ ""
unfolding root_of is_absolute starts_with
root_of-relative String.[] h = refl
root_of-relative (String.◌∷◌ c s) h =
    no_root _ _ _ (other_start "//" c s h) (other_start "/" c s h) (other_start "" c s h)

-- The target of a path.
abbrev pub path_target : String → ValidationTarget
path_target path = record {
  scope = "changed-file:" <> path;
  target_type = "changed-file";
  target_id = path;
}

accepted_path :
    (raw : String) (t : ValidationTarget)
    → changed_file_target raw ≡ ok t
    → (is_absolute raw ≡ false)
      × (contains ".." (parts raw) ≡ false)
      × (str_eq (posix_text raw) "." ≡ false)
      × (t.target_id ≡ posix_text raw)
      × (path_target t.target_id ≡ t)
unfolding changed_file_target
accepted_path raw t h =
    let (g, more) = guarded _ no_relative_path _ t h in
    let (d, last) = guarded _ no_relative_path _ t more in
    let same = ok-injective _ t last in
    (
      ground arith,
      ground arith,
      ground arith,
      sym (ap (λ u. u.target_id) same),
      ap (λ u. path_target u.target_id) (sym same) ∙ same,
    )

relative_text :
    (raw : String) → is_absolute raw ≡ false → posix_text raw ≡ dot_if_empty (join "/" (parts raw))
unfolding posix_text
relative_text raw h =
    ap dot_if_empty (ap (λ r. r <> join "/" (parts raw)) (root_of-relative raw h) ∙ nil-append _)

chosen :
    (b : Bool) (s : String) → str_eq (if b then "." else s) "." ≡ false → (if b then "." else s) ≡ s
chosen true s h = cc
chosen false s h = refl

not_dot : (s : String) → str_eq (dot_if_empty s) "." ≡ false → dot_if_empty s ≡ s
not_dot s h = chosen (str_eq s "") s h

named_parts : (ws : List String) → str_eq (dot_if_empty (join "/" ws)) "." ≡ false → ws ≢ []
unfolding join
named_parts [] h = cc
named_parts (w ∷ ws) h = λ e. cc

joined-relative : (ws : List String) → All IsSegment ws → is_absolute (join "/" ws) ≡ false
unfolding join is_absolute starts_with
joined-relative [] h = refl
joined-relative (w ∷ []) h = ap is_absolute (sym (append-nil w)) ∙ absolute-append w "" h.0
joined-relative (w ∷ v ∷ ws) h = absolute-append w ("/" <> join "/" (v ∷ ws)) h.0

joined-IsRelativePath :
    (ws : List String)
    → All IsSegment ws
    → contains ".." ws ≡ false
    → str_eq (dot_if_empty (join "/" ws)) "." ≡ false
    → IsRelativePath (join "/" ws)
joined-IsRelativePath ws segments stays h =
    let same = parts-join ws segments in
    let relative = joined-relative ws segments in
    record {
      relative = relative;
      named = λ e. named_parts ws h (sym same ∙ e);
      stays = ap (contains "..") same ∙ stays;
      normal =
          relative_text (join "/" ws) relative
          ∙ (ap (λ us. dot_if_empty (join "/" us)) same ∙ not_dot _ h);
    }

pub changed_file_target-IsRelativePath :
    (raw : String) (t : ValidationTarget)
    → changed_file_target raw ≡ ok t
    → IsRelativePath t.target_id × (path_target t.target_id ≡ t)
changed_file_target-IsRelativePath raw t h =
    let (relative, stays, dot, same, named) = accepted_path raw t h in
    let text = relative_text raw relative in
    let nonempty = ap (λ s. str_eq s ".") (sym text) ∙ dot in
    (
      subst IsRelativePath (sym (same ∙ (text ∙ not_dot (join "/" (parts raw)) nonempty)))
          (joined-IsRelativePath (parts raw) (parts-All raw) stays nonempty),
      named,
    )

-- The path of a target that is accepted, from the parts of the text.
pub accepted_text :
    (raw : String) (t : ValidationTarget)
    → changed_file_target raw ≡ ok t
    → t.target_id ≡ join "/" (parts raw)
accepted_text raw t h =
    let (relative, stays, dot, same, named) = accepted_path raw t h in
    let text = relative_text raw relative in
    same ∙ (text ∙ not_dot (join "/" (parts raw)) (ap (λ s. str_eq s ".") (sym text) ∙ dot))

-- A changed-file target that is accepted names a relative path in its normal form: no part is "..".
pub normalize_changed_file_target-IsRelativePath :
    (scope : String) (t : ValidationTarget)
    → normalize_changed_file_target scope ≡ ok t
    → IsRelativePath t.target_id × (t.scope ≡ "changed-file:" <> t.target_id)
unfolding normalize_changed_file_target
normalize_changed_file_target-IsRelativePath scope t h =
    let (relative, same) =
      changed_file_target-IsRelativePath (slashes (strip (remove_prefix "changed-file:" scope))) t
        h in
    (relative, sym (ap (λ u. u.scope) same))
