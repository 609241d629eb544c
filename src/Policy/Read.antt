-- ===== src/Policy/Read.antt =====
-- The readers of policy_admission.py: references, waivers and timestamps out of a dynamic request.
use workspace_governance_con.Prelude.{
  ℕ, ◌==◌, Bool, ◌||◌, Option, none, some, List, [], ◌∷◌, String, ltb, if◌then◌else◌,
}
use workspace_governance_con.Prelude.Text.{strip, is_empty}
use workspace_governance_con.Value.{Value, Items, list, dict, nil, cons, get, or_else, is_null}
use workspace_governance_con.Platform.{Platform, optional_str, str}
use workspace_governance_con.Policy.Model.{AuthorityRef, ReceiptRef, Waiver}
use Prim.Native.Char.{code}

infixl 5 ◌>>=◌
abbrev pub ◌>>=◌ : {A B : Type 0} → Option A → (A → Option B) → Option B
none >>= f = none
some a >>= f = f a

-- `raw[:-1] + "+00:00"` where the text ends in "Z".
unfoldable pub expand_zulu : String → String
expand_zulu String.[] = String.[]
expand_zulu (String.◌∷◌ c String.[]) = if code c == 90 then "+00:00" else String.◌∷◌ c String.[]
expand_zulu (String.◌∷◌ c (String.◌∷◌ d s)) = String.◌∷◌ c (expand_zulu (String.◌∷◌ d s))

-- A waiver that has expired is no waiver.
abbrev pub unexpired : Bool → Waiver → Option Waiver
unexpired expired waiver = if expired then none else some waiver

-- `value or default` on an optional text.
unfoldable pub text_or : Option String → String → String
text_or none d = d
text_or (some s) d = s

module _ (p : Platform) where
  -- `_parse_timestamp` of a value that is no `datetime`.
  unfoldable pub parse_timestamp : Value → Option ℕ
  unfolding str strip expand_zulu is_null
  parse_timestamp value =
      let raw = strip (str p value) in
      if is_null value || is_empty raw then none else p.parse_iso (expand_zulu raw)

  authority_ref : Value → Option AuthorityRef
  unfolding optional_str text_or
  authority_ref (dict item) = do
    authority_id ← optional_str p (get item "authority_id")
    some (record {
      authority_id = authority_id;
      digest = optional_str p (get item "digest");
      freshness_status = text_or (optional_str p (get item "freshness_status")) "unknown";
    })
  authority_ref _ = none

  receipt_ref : Value → Option ReceiptRef
  unfolding optional_str or_else
  receipt_ref (dict item) = do
    receipt_id ← optional_str p (get item "receipt_id")
    digest ← optional_str p (or_else (get item "digest") (get item "receipt_digest"))
    some (record {
      digest = digest;
      receipt_id = receipt_id;
      outcome = optional_str p (or_else (get item "outcome") (get item "status"));
    })
  receipt_ref _ = none

  -- The items that are read, in order; the others are skipped.
  kept {ℓ} : {A : Type ℓ} → (Value → Option A) → Items → List A
  kept read nil = []
  kept read (cons v rest) = elim (read v) [ none ↦ kept read rest | some a ↦ a ∷ kept read rest ]

  unfoldable pub authority_refs : Value → List AuthorityRef
  unfolding kept authority_ref
  authority_refs (list items) = kept authority_ref items
  authority_refs _ = []

  unfoldable pub receipt_refs : Value → List ReceiptRef
  unfolding kept receipt_ref
  receipt_refs (list items) = kept receipt_ref items
  receipt_refs _ = []

  -- `_valid_waiver`
  unfoldable pub valid_waiver : Value → ℕ → Option Waiver
  valid_waiver (dict value) now = do
    waiver_id ← optional_str p (get value "waiver_id")
    authority_ref_id ← optional_str p (get value "authority_ref_id")
    reason ← optional_str p (get value "reason")
    expires_at ← parse_timestamp (get value "expires_at")
    unexpired (ltb expires_at now) (record {
      authority_ref_id = authority_ref_id;
      expires_at = p.iso_text expires_at;
      reason = reason;
      waiver_id = waiver_id;
    })
  valid_waiver _ now = none
