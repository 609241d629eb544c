-- ===== src/Agent/Clean.antt =====
-- When the comparisons of agent_action_policy.py collect no code.
use workspace_governance_con.Prelude.{
  ℕ, ◌≡◌, refl, sym, ◌∙◌, Bool, true, false, not, ◌&&◌, ◌||◌, List, [], ◌∷◌, ◌++◌, String, arith,
  leb, ltb, Bool-cases, inl, inr, if◌then◌else◌,
}
use workspace_governance_con.Value.{
  Value, Items, Fields, null, bool, int, float, text, list, dict, nil, cons, get, is_null,
}
use workspace_governance_con.Equality.{value_eq, member}
use workspace_governance_con.Agent.Model.{Result, ok, err, Bundle, parse_timestamp, Request}
use workspace_governance_con.Agent.Codes.{
  Codes, no_codes, add_deny, add_review, Binding, window, actor_bindings, target_bindings,
  approval_binding, compare_binding, compare_all, command_among, expiry_within, approval_expiry,
  approval, key_equal, consumed_among, intent_equal, idempotency, codes_of,
}

abbrev pub is_nil {ℓ} : {A : Type ℓ} → List A → Bool
is_nil [] = true
is_nil (_ ∷ _) = false

abbrev pub clean : Codes → Bool
clean c = is_nil c.deny && is_nil c.review

is_nil-append {ℓ} : {A : Type ℓ} (xs : List A) (x : A) → is_nil (xs ++ x ∷ []) ≡ false
is_nil-append [] x = refl
is_nil-append (y ∷ xs) x = refl

and_true : (x : Bool) → x ≡ (x && true)
and_true true = refl
and_true false = refl

and_false : (x : Bool) → false ≡ (x && false)
and_false true = refl
and_false false = refl

and_assoc : (x y z : Bool) → ((x && y) && z) ≡ (x && (y && z))
and_assoc true y z = refl
and_assoc false y z = refl

clean-add_deny : (code : String) (c : Codes) → clean (add_deny code c) ≡ (clean c && false)
clean-add_deny code c = rw (is_nil-append c.deny code) (and_false (clean c))

clean-add_review : (code : String) (c : Codes) → clean (add_review code c) ≡ (clean c && false)
clean-add_review code c =
    rw (is_nil-append c.review code) (sym (and_false (is_nil c.deny)) ∙ and_false (clean c))

tested :
    (t : Bool) (code : String) (c : Codes)
    → clean (if t then c else add_deny code c) ≡ (clean c && t)
tested true code c = and_true (clean c)
tested false code c = clean-add_deny code c

picked :
    (skip unknown same : Bool) (u m : String) (c : Codes)
    → clean
        (if skip then c else if unknown then add_review u c else if same then c else add_deny m c)
      ≡ (clean c && (skip || (not unknown && same)))
picked true unknown same u m c = and_true (clean c)
picked false true same u m c = clean-add_review u c
picked false false same u m c = tested same m c

ltb_of_leb : (a b : ℕ) → ltb b a ≡ not (leb a b)
ltb_of_leb a b = ground arith

module _ (b : Bundle) (current : Fields) where
  -- A binding that is not required of the request, or that is current and equal to it.
  abbrev pub verified : Binding → Bool
  unfolding value_eq get is_null
  verified x =
      (x.optional && is_null x.requested)
      || (not (is_null (get current x.key)) && value_eq b.float_eq (get current x.key) x.requested)

  abbrev pub all_verified : List Binding → Bool
  all_verified [] = true
  all_verified (x ∷ xs) = verified x && all_verified xs

  abbrev pub admitted : Value → Value → Bool
  unfolding member
  admitted command (list vs) = member b.float_eq command vs
  admitted command _ = false

  abbrev pub expires_after : Result ℕ → ℕ → Bool
  expires_after (err e) now = false
  expires_after (ok t) now = ltb now t

  -- The approval is the requested one, and expires later.
  abbrev pub approved : Request → ℕ → Bool
  unfolding parse_timestamp get
  approved r now =
      verified (approval_binding r)
      && expires_after (parse_timestamp b (get current "approval_expires_at") "approval_expires_at")
          now

  -- No consumed key is the request's.
  abbrev pub fresh_among : Value → Items → Bool
  fresh_among key nil = true
  fresh_among key (cons v vs) = not (key_equal b current v key) && fresh_among key vs

  abbrev pub fresh : Value → Value → Bool
  fresh key (list vs) = fresh_among key vs
  fresh key _ = false

  clean-window : (r e n : ℕ) → clean (window r e n no_codes) ≡ (ltb r e && (leb r n && ltb n e))
  unfolding window
  clean-window r e n = ground arith

  clean-compare :
      (x : Binding) (c : Codes) → clean (compare_binding b current x c) ≡ (clean c && verified x)
  unfolding compare_binding
  clean-compare x c = picked _ _ _ x.unverified x.mismatch c

  clean-compare_all :
      (xs : List Binding) (c : Codes)
      → clean (compare_all b current xs c) ≡ (clean c && all_verified xs)
  unfolding compare_all
  clean-compare_all [] c = and_true (clean c)
  clean-compare_all (x ∷ xs) c =
      clean-compare_all xs (compare_binding b current x c)
      ∙ rw (clean-compare x c) (and_assoc (clean c) (verified x) (all_verified xs))

  clean-command :
      (v admitted_commands : Value) (c : Codes)
      → clean (command_among b current v admitted_commands c)
        ≡ (clean c && admitted v admitted_commands)
  unfolding command_among
  clean-command v (list vs) c = tested (member b.float_eq v vs) "workflow-command-not-admitted" c
  clean-command v null c = clean-add_review "workflow-command-admission-unverified" c
  clean-command v (bool _) c = clean-add_review "workflow-command-admission-unverified" c
  clean-command v (int _) c = clean-add_review "workflow-command-admission-unverified" c
  clean-command v (float _) c = clean-add_review "workflow-command-admission-unverified" c
  clean-command v (text _) c = clean-add_review "workflow-command-admission-unverified" c
  clean-command v (dict _) c = clean-add_review "workflow-command-admission-unverified" c

  clean-expiry_within :
      (t : Result ℕ) (now : ℕ) (c : Codes)
      → clean (expiry_within b current t now c) ≡ (clean c && expires_after t now)
  clean-expiry_within (err e) now c = clean-add_deny "approval-expiry-invalid" c
  clean-expiry_within (ok t) now c = elim (Bool-cases (leb t now)) [
    | inl late ↦ rw (late, ltb_of_leb t now, late) (clean-add_deny "approval-expired" c)
    | inr soon ↦ rw (soon, ltb_of_leb t now, soon) (and_true (clean c))
  ]

  clean-approval_expiry :
      (v : Value) (now : ℕ) (c : Codes)
      → clean (approval_expiry b current v now c)
        ≡ (clean c && expires_after (parse_timestamp b v "approval_expires_at") now)
  unfolding approval_expiry parse_timestamp
  clean-approval_expiry null now c = clean-add_review "approval-expiry-unverified" c
  clean-approval_expiry (bool _) now c = clean-add_deny "approval-expiry-invalid" c
  clean-approval_expiry (int _) now c = clean-add_deny "approval-expiry-invalid" c
  clean-approval_expiry (float _) now c = clean-add_deny "approval-expiry-invalid" c
  clean-approval_expiry (text s) now c = clean-expiry_within _ now c
  clean-approval_expiry (list _) now c = clean-add_deny "approval-expiry-invalid" c
  clean-approval_expiry (dict _) now c = clean-add_deny "approval-expiry-invalid" c

  clean-approval :
      (m : Bool) (r : Request) (now : ℕ) (c : Codes)
      → clean (approval b current m r now c) ≡ (clean c && (not m || approved r now))
  unfolding approval approved
  clean-approval false r now c = and_true (clean c)
  clean-approval true r now c =
      clean-approval_expiry (get current "approval_expires_at") now
        (compare_binding b current (approval_binding r) c)
      ∙ rw (clean-compare (approval_binding r) c)
          (and_assoc (clean c) (verified (approval_binding r)) _)

  clean-consumed :
      (r : Request) (vs : Items) (c : Codes)
      → clean (consumed_among b current r vs c) ≡ (clean c && fresh_among r.idempotency_key vs)
  unfolding consumed_among
  clean-consumed r nil c = and_true (clean c)
  clean-consumed r (cons v vs) c = elim (Bool-cases (key_equal b current v r.idempotency_key)) [
    | inr other ↦ rw other (clean-consumed r vs c)
    | inl same ↦ rw same (elim (Bool-cases (intent_equal b current v r.intent_digest)) [
      | inl e ↦ rw e (clean-add_deny "idempotency-key-consumed" c)
      | inr e ↦ rw e (clean-add_deny "idempotency-intent-conflict" c)
    ])
  ]

  clean-idempotency :
      (r : Request) (v : Value) (c : Codes)
      → clean (idempotency b current r v c) ≡ (clean c && fresh r.idempotency_key v)
  unfolding idempotency
  clean-idempotency r (list vs) c = clean-consumed r vs c
  clean-idempotency r null c = clean-add_review "idempotency-state-unverified" c
  clean-idempotency r (bool _) c = clean-add_review "idempotency-state-unverified" c
  clean-idempotency r (int _) c = clean-add_review "idempotency-state-unverified" c
  clean-idempotency r (float _) c = clean-add_review "idempotency-state-unverified" c
  clean-idempotency r (text _) c = clean-add_review "idempotency-state-unverified" c
  clean-idempotency r (dict _) c = clean-add_review "idempotency-state-unverified" c

  module _ (r : Request) (m : Bool) (requested_at expires_at now : ℕ) where
    pub clean-codes_of : clean (codes_of b current r m requested_at expires_at now) ≡ (
        (((((ltb requested_at expires_at && (leb requested_at now && ltb now expires_at))
                && all_verified (actor_bindings r))
              && admitted r.command (get current "admitted_commands"))
            && all_verified (target_bindings r))
          && (not m || approved r now))
        && fresh r.idempotency_key (get current "consumed_idempotency"))
    unfolding codes_of
    clean-codes_of = rw (
      clean-idempotency, clean-approval, clean-compare_all, clean-command, clean-compare_all,
      clean-window,
    )
