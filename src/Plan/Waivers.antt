-- ===== src/Plan/Waivers.antt =====
-- `_valid_validator_waiver` of validation_planning.py.
use workspace_governance_con.Prelude.{
  ℕ, Bool, true, ◌&&◌, leb, Option, none, some, List, [], ◌∷◌, String, str_eq, contains,
  if◌then◌else◌,
}
use workspace_governance_con.Prelude.Text.{lower, text_le}
use workspace_governance_con.Prelude.Sorting.{sort_by}
use workspace_governance_con.Value.{Fields, text, get, or_else}
use workspace_governance_con.Platform.{Platform, str, optional_str}
use workspace_governance_con.Policy.Read.{parse_timestamp}
use workspace_governance_con.Plan.Scopes.{stripped, text_at}

abbrev pub waiver_statuses : List String
waiver_statuses = "active" ∷ "approved" ∷ "current" ∷ []

abbrev pub not_expired : Option ℕ → ℕ → Bool
not_expired none now = true
not_expired (some t) now = leb now t

abbrev waiver_id_if : Bool → Option String → Option String
waiver_id_if applies waiver_id = if applies then waiver_id else none

module _ (p : Platform) where
  waiver_sort_name : Fields → String
  unfolding str or_else get
  waiver_sort_name waiver = str p (or_else (get waiver "waiver_id") (text ""))

  unfoldable pub waivers_in_order : List Fields → List Fields
  unfolding waiver_sort_name
  waivers_in_order waivers =
      sort_by (λ a b. text_le (waiver_sort_name a) (waiver_sort_name b)) waivers

  -- One round of the loop of `_valid_validator_waiver`: the id of a waiver that applies.
  unfoldable pub waiver_id_of : String → ℕ → Fields → Option String
  unfolding text_at contains stripped or_else get parse_timestamp optional_str lower
  waiver_id_of validator_id now waiver =
      waiver_id_if
        (str_eq (text_at p waiver "validator_id") validator_id
          && contains (lower (stripped p (or_else (get waiver "status") (text "approved"))))
              waiver_statuses
          && not_expired (parse_timestamp p (get waiver "expires_at")) now)
        (optional_str p (get waiver "waiver_id"))

  unfoldable pub first_waiver : String → ℕ → List Fields → Option String
  unfolding waiver_id_of
  first_waiver validator_id now [] = none
  first_waiver validator_id now (waiver ∷ waivers) = elim (waiver_id_of validator_id now waiver) [
    | none ↦ first_waiver validator_id now waivers
    | some waiver_id ↦ some waiver_id
  ]

  -- `_valid_validator_waiver`: the `waiver_id` of what it returns.
  unfoldable pub valid_validator_waiver : Fields → List Fields → ℕ → Option String
  unfolding first_waiver waivers_in_order text_at
  valid_validator_waiver validator waivers now =
      first_waiver (text_at p validator "validator_id") now (waivers_in_order waivers)
