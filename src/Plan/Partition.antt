-- ===== src/Plan/Partition.antt =====
-- What the loop of `build_validation_plan` of validation_planning.py leaves of each validator.
use workspace_governance_con.Prelude.{
  ◌≡◌, refl, ap, sym, ◌∙◌, ◌⊎◌, inl, inr, Bool, true, false, not, Option, none, some, List, [], ◌∷◌,
  map, String, if◌then◌else◌,
}
use mathlib.Core.Path.{subst}
use workspace_governance_con.Prelude.Result.{Result, ok, err, ◌>>=◌, ok-injective, bound}
use workspace_governance_con.Value.{Fields, get}
use workspace_governance_con.Platform.{Platform, str}
use workspace_governance_con.Plan.Model.{Tier, ValidationCheck, PlanError}
use workspace_governance_con.Plan.Scopes.{text_at, validator_scopes}
use workspace_governance_con.Plan.Template.{command_template_target_error, render_validator_command}
use workspace_governance_con.Plan.Reuse.{receipt_reuse_decision}
use workspace_governance_con.Plan.Checks.{
  validation_check, check_from, validator_check_type, validator_tier, tier_included, scope_included,
}
use workspace_governance_con.Plan.Waivers.{valid_validator_waiver}
use workspace_governance_con.Plan.Rounds.{
  Round, chosen, left_out, by_waiver, Request, Rounds, rounds_of, round_of, tier_round,
  in_scope_round, waived_or_checked,
}

-- What holds of each result of three steps holds of the one that is returned.
three_steps :
    {A B C D : Type 0} (P : D → Type 0) (f : A → B → C → D) (l : Result PlanError A)
    (m : Result PlanError B) (n : Result PlanError C) (d : D)
    → ((a : A) (b : B) (c : C) → P (f a b c))
    → (l >>= λ a. m >>= λ b. n >>= λ c. ok (f a b c)) ≡ ok d
    → P d
three_steps P f (ok a) (ok b) (ok c) d all h = subst P (ok-injective (f a b c) d h) (all a b c)
three_steps P f (ok a) (ok b) (err e) d all h = cc
three_steps P f (ok a) (err e) n d all h = cc
three_steps P f (err e) m n d all h = cc

module _ (p : Platform) where
  -- The rounds are those of the validators, in order.
  rounds-validators :
      (r : Request) (vs : List Fields) (rounds : Rounds)
      → rounds_of p r vs ≡ ok rounds
      → map (λ e. e.0) rounds ≡ vs
  unfolding rounds_of
  rounds-validators r [] rounds h = ap (map (λ e. e.0)) (sym (ok-injective [] rounds h))
  rounds-validators r (v ∷ vs) rounds h =
      let (round, er, h1) = bound (round_of p r v) _ rounds h in
      let (rest, es, h2) = bound (rounds_of p r vs) _ rounds h1 in
      ap (map (λ e. e.0)) (sym (ok-injective ((v, round) ∷ rest) rounds h2))
      ∙ ap (◌∷◌ v) (rounds-validators r vs rest es)

  module _ (r : Request) (v : Fields) where
    abbrev InTier : Tier → Type 0
    InTier tier = tier_included tier r.tier ≡ true

    abbrev InScope : Type 0
    InScope = scope_included (validator_scopes p v) r.tier r.candidates ≡ true

    abbrev template_error : Option String
    template_error = command_template_target_error p (str p (get v "command")) r.target

    abbrev waiver : Option String
    waiver = valid_validator_waiver p v r.waivers r.now

    -- Why a validator of a tier is left out, waived or chosen.
    abbrev pub Explains : Tier → Round → Type 0
    Explains tier (left_out reason) =
        (tier_included tier r.tier ≡ false)
        ⊎ ((scope_included (validator_scopes p v) r.tier r.candidates ≡ false)
            ⊎ (template_error ≡ some reason))
    Explains tier (by_waiver waiver_id) =
        InTier tier × (InScope × ((template_error ≡ none) × (waiver ≡ some waiver_id)))
    Explains tier (chosen check) =
        InTier tier
        × (InScope
            × ((template_error ≡ none)
                × ((waiver ≡ none) × (check.validator_id ≡ text_at p v "validator_id"))))

    check-id :
        (tier : Tier) (check : ValidationCheck)
        → validation_check p v r.target r.candidates tier r.tier r.manifest r.receipts r.now
          ≡ ok check
        → check.validator_id ≡ text_at p v "validator_id"
    unfolding validation_check check_from
    check-id tier check h =
        three_steps (λ c. c.validator_id ≡ text_at p v "validator_id")
          (check_from p v r.target r.candidates tier r.tier)
          (receipt_reuse_decision p v r.target r.candidates r.tier r.receipts r.now r.manifest)
          (validator_check_type p v) (render_validator_command p (text_at p v "command") r.target)
          check (λ d t c. refl) h

    waived-Explains :
        (tier : Tier) (o : Option String) (round : Round)
        → InTier tier
        → InScope
        → template_error ≡ none
        → waiver ≡ o
        → waived_or_checked p r v tier o ≡ ok round
        → Explains tier round
    unfolding waived_or_checked
    waived-Explains tier (some w) round t s e o h =
        subst (Explains tier) (ok-injective (by_waiver w) round h) (t, (s, (e, o)))
    waived-Explains tier none round t s e o h =
        let (check, ec, er) =
          bound (validation_check p v r.target r.candidates tier r.tier r.manifest r.receipts r.now)
            (λ check. ok (chosen check)) round h in
        subst (Explains tier) (ok-injective (chosen check) round er)
          (t, (s, (e, (o, check-id tier check ec))))

    template-Explains :
        (tier : Tier) (o : Option String) (round : Round)
        → InTier tier
        → InScope
        → template_error ≡ o
        → in_scope_round p r v tier o ≡ ok round
        → Explains tier round
    unfolding in_scope_round
    template-Explains tier (some error) round t s e h =
        subst (Explains tier) (ok-injective (left_out error) round h) (inr (inr e))
    template-Explains tier none round t s e h = waived-Explains tier waiver round t s e refl h

    guard-Explains :
        (tier : Tier) (a b : Bool) (x y : String) (m : Result PlanError Round) (round : Round)
        → tier_included tier r.tier ≡ a
        → scope_included (validator_scopes p v) r.tier r.candidates ≡ b
        → (InTier tier → InScope → m ≡ ok round → Explains tier round)
        → (if not a then ok (left_out x) else if not b then ok (left_out y) else m) ≡ ok round
        → Explains tier round
    guard-Explains tier false b x y m round ea eb rest h =
        subst (Explains tier) (ok-injective (left_out x) round h) (inl ea)
    guard-Explains tier true false x y m round ea eb rest h =
        subst (Explains tier) (ok-injective (left_out y) round h) (inr (inl eb))
    guard-Explains tier true true x y m round ea eb rest h = rest ea eb h

    -- Each round that is reached is explained by the tier, the scope, the template and the waivers.
    pub round_of-Explains :
        (round : Round)
        → round_of p r v ≡ ok round
        → (tier : Tier) × (validator_tier p v ≡ ok tier) × Explains tier round
    unfolding round_of tier_round
    round_of-Explains round h =
        let (tier, et, er) = bound (validator_tier p v) (tier_round p r v) round h in
        (
          tier,
          et,
          guard-Explains tier (tier_included tier r.tier)
              (scope_included (validator_scopes p v) r.tier r.candidates) _ _
              (in_scope_round p r v tier template_error) round refl refl
              (λ t s e. template-Explains tier template_error round t s refl e) er,
        )
