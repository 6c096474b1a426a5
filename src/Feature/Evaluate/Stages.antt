-- ===== src/Feature/Evaluate/Stages.antt =====
-- What each lifecycle stage of a flag lets through, and what an evaluation depends on.
use flagbase.Prelude.{
  String, true, ◌≡◌, ◌≢◌, ◌⊎◌, ◌↔◌, refl, List, [], ◌∷◌, All, Some, none, some, lookup, ◌&&◌, arith,
  eq_iff,
}
use flagbase.Text.{Unicode}
use flagbase.Feature.{
  Flag, Rule, Override, flag_status_draft, flag_status_testing, flag_status_deprecated,
}
use flagbase.Feature.Evaluate.{
  Context, user_of, bool_to_variant_key, resolve_rule_variant, find_override, override_for, applies,
  find_rule, evaluate_rules, evaluate_flag,
}

abbrev pub Pins : String → String → Override → Type 0
Pins user v o = (o.user_id ≡ user) × (o.variant_key ≡ v)

find_override-some :
    (user v : String) (os : List Override) → find_override user os ≡ some v → Some (Pins user v) os
unfolding find_override
find_override-some user v [] h = absurd (cc)
find_override-some user v (o ∷ os) h =
    ground (arith, eq_iff o.user_id user, find_override-some user v os)

find_override-none :
    (user : String) (os : List Override)
    → All (λ o. o.user_id ≢ user) os
    → find_override user os ≡ none
unfolding find_override
find_override-none user [] h = refl
find_override-none user (o ∷ os) h =
    ground (arith, eq_iff o.user_id user, find_override-none user os)

draft-ne-deprecated : flag_status_draft ≢ flag_status_deprecated
draft-ne-deprecated = ground (arith, eq_iff flag_status_draft flag_status_deprecated)

testing-ne-deprecated : flag_status_testing ≢ flag_status_deprecated
testing-ne-deprecated = ground (arith, eq_iff flag_status_testing flag_status_deprecated)

testing-ne-draft : flag_status_testing ≢ flag_status_draft
testing-ne-draft = ground (arith, eq_iff flag_status_testing flag_status_draft)

module _ (u : Unicode) where
  abbrev pub Grants : Context → String → Rule → Type 0
  Grants ctx v r = (applies u ctx r ≡ true) × (resolve_rule_variant r ≡ v)

  find_rule-some :
      (ctx : Context) (v : String) (rs : List Rule)
      → find_rule u ctx rs ≡ some v
      → Some (Grants ctx v) rs
  unfolding find_rule
  find_rule-some ctx v [] h = absurd (cc)
  find_rule-some ctx v (r ∷ rs) h = ground (arith, find_rule-some ctx v rs)

  -- A draft evaluates to "false" for every caller for whom the flag has no override, whatever its
  -- rules, its default and whether it is enabled.
  pub draft_hidden :
      (ctx : Context) (f : Flag)
      → f.status ≡ flag_status_draft
      → All (λ o. o.user_id ≢ user_of ctx) f.overrides
      → evaluate_flag u ctx f ≡ "false"
  unfolding evaluate_flag evaluate_rules override_for
  draft_hidden ctx f h k = ground (
    arith,
    find_override-none (user_of ctx) f.overrides k,
    eq_iff f.status flag_status_draft,
    eq_iff f.status flag_status_deprecated,
    draft-ne-deprecated,
  )

  -- A draft that is enabled evaluates to something else than "false" exactly by the first override
  -- for a caller who is known.
  pub draft_pinned :
      (ctx : Context) (f : Flag) (v : String)
      → f.status ≡ flag_status_draft
      → f.enabled ≡ true
      → v ≢ "false"
      → (evaluate_flag u ctx f ≡ v) ↔ (
          (user_of ctx ≢ "")
          × (user_of ctx ≢ "anonymous")
          × (find_override (user_of ctx) f.overrides ≡ some v))
  unfolding evaluate_flag evaluate_rules override_for
  draft_pinned ctx f v h on n = ground (
    arith,
    eq_iff f.status flag_status_draft,
    eq_iff f.status flag_status_deprecated,
    eq_iff (user_of ctx) "",
    eq_iff (user_of ctx) "anonymous",
    draft-ne-deprecated,
  )

  -- A flag in testing that evaluates to something else than "false" does so by an override for the
  -- caller, who is known, or by a rule that applies to the context; never by its default.
  pub testing_opt_in :
      (ctx : Context) (f : Flag) (v : String)
      → f.status ≡ flag_status_testing
      → evaluate_flag u ctx f ≡ v
      → v ≢ "false"
      → ((user_of ctx ≢ "") × (user_of ctx ≢ "anonymous") × Some (Pins (user_of ctx) v) f.overrides)
        ⊎ Some (Grants ctx v) f.rules
  unfolding evaluate_flag evaluate_rules override_for
  testing_opt_in ctx f v h e n = ground (
    arith,
    find_override-some (user_of ctx) v f.overrides,
    find_rule-some ctx v f.rules,
    eq_iff f.status flag_status_testing,
    eq_iff f.status flag_status_deprecated,
    eq_iff f.status flag_status_draft,
    eq_iff (user_of ctx) "",
    eq_iff (user_of ctx) "anonymous",
    testing-ne-deprecated,
    testing-ne-draft,
  )

  -- A deprecated flag evaluates alike for all callers, to its default while it is enabled.
  pub deprecated_uniform :
      (ctx : Context) (f : Flag)
      → f.status ≡ flag_status_deprecated
      → evaluate_flag u ctx f ≡ bool_to_variant_key (f.enabled && f.default_value)
  unfolding evaluate_flag bool_to_variant_key
  deprecated_uniform ctx f h = ground (arith, eq_iff f.status flag_status_deprecated)

  -- Two contexts with the same caller that agree on the attribute of each rule.
  abbrev pub Agree : Context → Context → Flag → Type 0
  Agree c d f =
      (user_of c ≡ user_of d) × All (λ r. lookup r.attribute c ≡ lookup r.attribute d) f.rules

  applies-agree :
      (c d : Context) (r : Rule)
      → lookup r.attribute c ≡ lookup r.attribute d
      → applies u c r ≡ applies u d r
  unfolding applies
  applies-agree c d r e = rw (e, applies)

  find_rule-agree :
      (c d : Context) (rs : List Rule)
      → All (λ r. lookup r.attribute c ≡ lookup r.attribute d) rs
      → find_rule u c rs ≡ find_rule u d rs
  unfolding find_rule
  find_rule-agree c d [] h = refl
  find_rule-agree c d (r ∷ rs) (e, h) = simp (applies-agree c d r e, find_rule-agree c d rs h)

  -- Nothing of the context but the caller and the attributes of the flag's rules changes the result.
  pub evaluate_flag-Agree :
      (c d : Context) (f : Flag) → Agree c d f → evaluate_flag u c f ≡ evaluate_flag u d f
  unfolding evaluate_flag evaluate_rules
  evaluate_flag-Agree c d f (same, h) = ground (arith, find_rule-agree c d f.rules h, same)

  -- Of a flag that is enabled and not deprecated, the first override for a known caller decides,
  -- in every stage and before any rule.
  pub override_decides :
      (ctx : Context) (f : Flag) (v : String)
      → f.enabled ≡ true
      → f.status ≢ flag_status_deprecated
      → user_of ctx ≢ ""
      → user_of ctx ≢ "anonymous"
      → find_override (user_of ctx) f.overrides ≡ some v
      → evaluate_flag u ctx f ≡ v
  unfolding evaluate_flag override_for
  override_decides ctx f v on live known named e = ground (
    arith,
    eq_iff f.status flag_status_deprecated,
    eq_iff (user_of ctx) "",
    eq_iff (user_of ctx) "anonymous",
  )

  -- Of the overrides only the caller's matters.
  pub evaluate_flag-pin :
      (ctx : Context) (f : Flag) (os : List Override)
      → find_override (user_of ctx) os ≡ find_override (user_of ctx) f.overrides
      → evaluate_flag u ctx (record f { overrides = os }) ≡ evaluate_flag u ctx f
  unfolding evaluate_flag evaluate_rules override_for
  evaluate_flag-pin ctx f os h = ground arith
