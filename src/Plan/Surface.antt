-- ===== src/Plan/Surface.antt =====
-- Which validators a release leaves out, and which waivers apply, of validation_planning.py.
use workspace_governance_con.Prelude.{
  ℕ, ◌≡◌, ◌≤◌, refl, inl, inr, Bool, true, false, ◌&&◌, Option, none, some, List, [], ◌∷◌, String,
  str_eq, All, contains, eq_iff, leb→le, if◌then◌else◌,
}
use mathlib.Core.Path.{subst}
use mathlib.Core.Option.{some-injective}
use workspace_governance_con.Prelude.Text.{lower}
use workspace_governance_con.Prelude.Sorting.{Member, Member-sort_by, All-sort_by}
use workspace_governance_con.Prelude.Result.{ok}
use workspace_governance_con.Value.{Fields, text, get, or_else}
use workspace_governance_con.Platform.{Platform, str, optional_str}
use workspace_governance_con.Policy.Read.{parse_timestamp}
use workspace_governance_con.Plan.Model.{Tier, smoke, scoped, full, release, is_release}
use workspace_governance_con.Plan.Scopes.{stripped, text_at, validator_scopes}
use workspace_governance_con.Plan.Template.{command_template_target_error}
use workspace_governance_con.Plan.Checks.{tier_included, scope_included}
use workspace_governance_con.Plan.Waivers.{
  waiver_statuses, not_expired, waiver_id_of, first_waiver, waivers_in_order,
  valid_validator_waiver,
}
use workspace_governance_con.Plan.Rounds.{left_out, Request, round_of}
use workspace_governance_con.Plan.Partition.{round_of-Explains}

release-tier_included :
    (tier requested : Tier) → is_release requested ≡ true → tier_included tier requested ≡ true
unfolding tier_included
release-tier_included tier smoke h = cc
release-tier_included tier scoped h = cc
release-tier_included tier full h = cc
release-tier_included smoke release h = refl
release-tier_included scoped release h = refl
release-tier_included full release h = refl
release-tier_included release release h = refl

release-scope_included :
    (scopes : List String) (requested : Tier) (candidates : List String)
    → is_release requested ≡ true
    → scope_included scopes requested candidates ≡ true
unfolding scope_included
release-scope_included scopes smoke candidates h = cc
release-scope_included scopes scoped candidates h = cc
release-scope_included scopes full candidates h = cc
release-scope_included scopes release candidates h = refl

-- A waiver that covers a validator at an instant, under its id.
pub record Covers (p : Platform) (validator_id : String) (now : ℕ) (waiver : Fields)
    (waiver_id : String) : Type 0 where
  pub same_validator : text_at p waiver "validator_id" ≡ validator_id
  pub approved :
      contains
        (lower (stripped p (or_else (get waiver "status") (text "approved"))))
        waiver_statuses
      ≡ true
  pub unexpired : (t : ℕ) → parse_timestamp p (get waiver "expires_at") ≡ some t → now ≤ t
  pub named : optional_str p (get waiver "waiver_id") ≡ some waiver_id

module _ (p : Platform) where
  -- A release leaves a validator out only for its command template.
  pub round_of-release :
      (r : Request) (v : Fields) (reason : String)
      → is_release r.tier ≡ true
      → round_of p r v ≡ ok (left_out reason)
      → command_template_target_error p (str p (get v "command")) r.target ≡ some reason
  round_of-release r v reason is_rel h =
      let (tier, et, why) = round_of-Explains p r v (left_out reason) h in
      elim why [
        | inl low ↦ absurd (let e = release-tier_included tier r.tier is_rel in cc)
        | inr (inl out) ↦
            absurd (
              let e = release-scope_included (validator_scopes p v) r.tier r.candidates is_rel in
              cc)
        | inr (inr e) ↦ e
      ]

  not_expired-le : (o : Option ℕ) (now t : ℕ) → not_expired o now ≡ true → o ≡ some t → now ≤ t
  not_expired-le none now t h e = cc
  not_expired-le (some u) now t h e = subst (λ v. now ≤ v) (some-injective u t e) (leb→le now u h)

  applies :
      (b : Bool) (o : Option String) (s : String)
      → (if b then o else none) ≡ some s
      → (b ≡ true) × (o ≡ some s)
  applies true o s h = (refl, h)
  applies false o s h = cc

  three : (a b c : Bool) → (a && b && c) ≡ true → (a ≡ true) × (b ≡ true) × (c ≡ true)
  three true true true h = (refl, refl, refl)
  three true true false h = cc
  three true false c h = cc
  three false b c h = cc

  waiver_id_of-Covers :
      (validator_id : String) (now : ℕ) (waiver : Fields) (waiver_id : String)
      → waiver_id_of p validator_id now waiver ≡ some waiver_id
      → Covers p validator_id now waiver waiver_id
  unfolding waiver_id_of
  waiver_id_of-Covers validator_id now waiver waiver_id h =
      let (all, named) = applies _ (optional_str p (get waiver "waiver_id")) waiver_id h in
      let (same, approved, unexpired) =
        three (str_eq (text_at p waiver "validator_id") validator_id)
          (contains (lower (stripped p (or_else (get waiver "status") (text "approved"))))
            waiver_statuses)
          (not_expired (parse_timestamp p (get waiver "expires_at")) now) all in
      record {
        same_validator = (eq_iff _ _).0 same;
        approved = approved;
        unexpired =
            λ t e. not_expired-le (parse_timestamp p (get waiver "expires_at")) now t unexpired e;
        named = named;
      }

  -- The search of the waivers, by its result.
  abbrev pub Waives : String → ℕ → List Fields → Option String → Type 0
  Waives validator_id now waivers (some waiver_id) =
      (waiver : Fields) × Member waiver waivers × Covers p validator_id now waiver waiver_id
  Waives validator_id now waivers none =
      All (λ waiver. waiver_id_of p validator_id now waiver ≡ none) waivers

  Waives-skip :
      (validator_id : String) (now : ℕ) (w : Fields) (ws : List Fields) (o : Option String)
      → waiver_id_of p validator_id now w ≡ none
      → Waives validator_id now ws o
      → Waives validator_id now (w ∷ ws) o
  Waives-skip validator_id now w ws none e h = (e, h)
  Waives-skip validator_id now w ws (some i) e h = (h.0, inr h.1, h.2)

  Waives-after :
      (validator_id : String) (now : ℕ) (w : Fields) (ws : List Fields) (o rest : Option String)
      → waiver_id_of p validator_id now w ≡ o
      → Waives validator_id now ws rest
      → Waives validator_id now (w ∷ ws) (elim o [ none ↦ rest | some waiver_id ↦ some waiver_id ])
  Waives-after validator_id now w ws none rest e h = Waives-skip validator_id now w ws rest e h
  Waives-after validator_id now w ws (some i) rest e h =
      (w, inl refl, waiver_id_of-Covers validator_id now w i e)

  first_waiver-Waives :
      (validator_id : String) (now : ℕ) (waivers : List Fields)
      → Waives validator_id now waivers (first_waiver p validator_id now waivers)
  unfolding first_waiver
  first_waiver-Waives validator_id now [] = tt
  first_waiver-Waives validator_id now (w ∷ ws) =
      Waives-after validator_id now w ws (waiver_id_of p validator_id now w) _ refl
        (first_waiver-Waives validator_id now ws)

  Waives-sorted :
      (validator_id : String) (now : ℕ) (waivers : List Fields) (o : Option String)
      → Waives validator_id now (waivers_in_order p waivers) o
      → Waives validator_id now waivers o
  unfolding waivers_in_order
  Waives-sorted validator_id now waivers none h = All-sort_by _ _ waivers h
  Waives-sorted validator_id now waivers (some i) h = (h.0, Member-sort_by _ h.0 waivers h.1, h.2)

  -- A validator is waived by a supplied waiver of its own that is approved and has not expired; where
  -- it is not waived, no supplied waiver applies.
  pub valid_validator_waiver-Waives :
      (validator : Fields) (waivers : List Fields) (now : ℕ)
      → Waives
          (text_at p validator "validator_id")
          now
          waivers
          (valid_validator_waiver p validator waivers now)
  unfolding valid_validator_waiver
  valid_validator_waiver-Waives validator waivers now =
      Waives-sorted (text_at p validator "validator_id") now waivers _
        (first_waiver-Waives (text_at p validator "validator_id") now (waivers_in_order p waivers))
