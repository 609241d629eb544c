-- ===== src/Policy/Flags.antt =====
-- Which severities each check of policy_admission.py reports, and with an action or without.
use workspace_governance_con.Prelude.{
  ◌≡◌, refl, Bool, true, false, not, ◌||◌, Option, none, some, List, [], ◌∷◌, ◌++◌, String, arith,
  all, contains, Bool-cases, inl, inr, ◌⊎◌,
}
use workspace_governance_con.Prelude.Text.{lower}
use workspace_governance_con.Policy.Model.{
  successful_receipt_outcomes, failed_receipt_outcomes, Severity, deny, block, review, waive,
  PolicyReason, AuthorityRef, ReceiptRef, Waiver,
}
use workspace_governance_con.Policy.Checks.{
  Finding, has, actions, check_type, type_supported, check_id, check_owner, check_freshness,
  check_authority, is_current, check_validation, validation_reason, first_reason, receipt_reason,
  receipt_outcome, waive_or_report, or_next, report,
}

-- What a list of findings shows of the severities.
pub record Flags : Type 0 where
  pub denies : Bool
  pub blocks : Bool
  pub reviews : Bool
  pub waives : Bool
  pub acts : Bool

abbrev pub has_actions : List Finding → Bool
has_actions fs = elim (actions fs) [ [] ↦ false | _ ∷ _ ↦ true ]

unfoldable pub flags : List Finding → Flags
flags fs = record {
  denies = has deny fs;
  blocks = has block fs;
  reviews = has review fs;
  waives = has waive fs;
  acts = has_actions fs;
}

abbrev pub quiet : Flags
quiet = record { denies = false; blocks = false; reviews = false; waives = false; acts = false }

abbrev pub either : Flags → Flags → Flags
either a b = record {
  denies = a.denies || b.denies;
  blocks = a.blocks || b.blocks;
  reviews = a.reviews || b.reviews;
  waives = a.waives || b.waives;
  acts = a.acts || b.acts;
}

has-append : (s : Severity) (xs ys : List Finding) → has s (xs ++ ys) ≡ (has s xs || has s ys)
unfolding has
has-append s [] ys = refl
has-append s (x ∷ xs) ys = ground (arith, has-append s xs ys)

has_actions-append :
    (xs ys : List Finding) → has_actions (xs ++ ys) ≡ (has_actions xs || has_actions ys)
unfolding actions
has_actions-append [] ys = refl
has_actions-append (x ∷ xs) ys = ground (arith, has_actions-append xs ys)

pub flags-append : (xs ys : List Finding) → flags (xs ++ ys) ≡ either (flags xs) (flags ys)
unfolding flags
flags-append xs ys = rw (
  has-append deny xs ys,
  has-append block xs ys,
  has-append review xs ys,
  has-append waive xs ys,
  has_actions-append xs ys,
)

abbrev pub denied : Bool → Flags
denied bad = record { denies = bad; blocks = false; reviews = false; waives = false; acts = bad }

abbrev pub is_none {ℓ} : {A : Type ℓ} → Option A → Bool
is_none none = true
is_none (some _) = false

pub flags-check_type : (t : Option String) → flags (check_type t) ≡ denied (not (type_supported t))
unfolding flags check_type has actions
flags-check_type t = elim (Bool-cases (type_supported t)) [ inl e ↦ rw e | inr e ↦ rw e ]

pub flags-check_id : (i : Option String) → flags (check_id i) ≡ denied (is_none i)
unfolding flags check_id has actions
flags-check_id none = refl
flags-check_id (some i) = refl

pub flags-check_owner : (o : Option String) → flags (check_owner o) ≡ denied (is_none o)
unfolding flags check_owner has actions
flags-check_owner none = refl
flags-check_owner (some o) = refl

abbrev pub stale : Bool → Flags
stale bad = record { denies = false; blocks = bad; reviews = false; waives = false; acts = bad }

pub flags-check_freshness :
    (refs : List AuthorityRef) → flags (check_freshness refs) ≡ stale (not (all is_current refs))
unfolding check_freshness
flags-check_freshness [] = unfold flags has actions in refl
flags-check_freshness (r ∷ refs) = elim (Bool-cases (is_current r)) [
  | inl e ↦ rw e (flags-check_freshness refs)
  | inr e ↦ rw (e, flags-append, flags-check_freshness refs) (unfold flags has actions in refl)
]

abbrev pub unlinked : Flags
unlinked = record { denies = false; blocks = false; reviews = true; waives = false; acts = true }

abbrev pub authority_flags : List AuthorityRef → Flags
authority_flags [] = unlinked
authority_flags (r ∷ refs) = stale (not (all is_current (r ∷ refs)))

pub flags-check_authority :
    (refs : List AuthorityRef) → flags (check_authority refs) ≡ authority_flags refs
unfolding check_authority
flags-check_authority [] = unfold flags has actions in refl
flags-check_authority (r ∷ refs) = flags-check_freshness (r ∷ refs)

-- A validation issue is reported as a block or a review.
abbrev pub IsIssue : Option PolicyReason → Type 0
IsIssue none = Unit
IsIssue (some r) = (r.severity ≡ block) ⊎ (r.severity ≡ review)

receipt_reason-IsIssue : (id : String) (o : Option String) → IsIssue (receipt_reason id o)
unfolding receipt_reason
receipt_reason-IsIssue id none = tt
receipt_reason-IsIssue id (some o) =
    elim (Bool-cases (contains (lower o) failed_receipt_outcomes)) [
      | inl e ↦ rw e (inl refl)
      | inr e ↦ rw e (elim (Bool-cases (contains (lower o) successful_receipt_outcomes)) [
        | inl f ↦ rw f tt
        | inr f ↦ rw f (inr refl)
      ])
    ]

or_next-IsIssue : (a b : Option PolicyReason) → IsIssue a → IsIssue b → IsIssue (or_next a b)
or_next-IsIssue none b h k = k
or_next-IsIssue (some r) b h k = h

first_reason-IsIssue : (rs : List ReceiptRef) → IsIssue (first_reason rs)
unfolding first_reason
first_reason-IsIssue [] = tt
first_reason-IsIssue (r ∷ rs) =
    or_next-IsIssue (receipt_reason r.receipt_id (receipt_outcome r)) (first_reason rs)
      (receipt_reason-IsIssue r.receipt_id (receipt_outcome r)) (first_reason-IsIssue rs)

pub validation_reason-IsIssue : (rs : List ReceiptRef) → IsIssue (validation_reason rs)
unfolding validation_reason
validation_reason-IsIssue [] = inr refl
validation_reason-IsIssue (r ∷ rs) = first_reason-IsIssue (r ∷ rs)

abbrev is_review : Severity → Bool
is_review review = true
is_review _ = false

-- The flags of the validation check, by the issue that it finds.
abbrev pub validation_flags : Bool → Option PolicyReason → Option Waiver → Flags
validation_flags false issue waiver = quiet
validation_flags true none waiver = quiet
validation_flags true (some r) (some w) = record {
  denies = false;
  blocks = false;
  reviews = false;
  waives = true;
  acts = false;
}
validation_flags true (some r) none = record {
  denies = false;
  blocks = not (is_review r.severity);
  reviews = is_review r.severity;
  waives = false;
  acts = true;
}

flags-report :
    (issue : Option PolicyReason) (waiver : Option Waiver)
    → IsIssue issue
    → flags (report issue waiver) ≡ validation_flags true issue waiver
unfolding waive_or_report flags has actions
flags-report none w h = refl
flags-report (some r) (some w) h = refl
flags-report (some r) none h = ground arith

pub flags-check_validation :
    (required : Bool) (receipts : List ReceiptRef) (waiver : Option Waiver)
    → flags (check_validation required receipts waiver)
      ≡ validation_flags required (validation_reason receipts) waiver
unfolding check_validation
flags-check_validation true rs w =
    flags-report (validation_reason rs) w (validation_reason-IsIssue rs)
flags-check_validation false rs w = unfold flags has actions in refl
