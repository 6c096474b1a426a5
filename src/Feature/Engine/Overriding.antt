-- ===== src/Feature/Engine/Overriding.antt =====
-- Pinning a user: the user gets the variant, and nobody else notices.
use flagbase.Prelude.{
  ℕ, String, true, ◌≡◌, ◌≢◌, refl, sym, ap, ◌∙◌, List, [], ◌∷◌, map, ◌==◌, eq_iff, Option, none,
  some, lookup, Bool-cases, inl, inr, ◌⊎◌,
}
use mathlib.Core.Option
use mathlib.Core.Path.{ap₂}
use flagbase.Text.{Unicode}
use flagbase.Db.{ok, Session}
use flagbase.Db.Ensures.{Ensures, by_bind, by_consequence, on_ok}
use flagbase.Ids.Laws.{new_id-same}
use flagbase.Sorting.{Sorting}
use flagbase.Feature.{Flag, Rule, Variant, Override, flag_status_deprecated}
use flagbase.Feature.Tables.{
  FlagRow, Tables, upsert_override, load_overrides, load_rules, load_variants,
}
use flagbase.Feature.Tables.Sound.{IsSound}
use flagbase.Feature.Tables.Pins.Upsert.{
  find_override-upsert, find_override-upsert_other, upsert-rest, load_rules-agree,
  load_variants-agree,
}
use flagbase.Feature.Evaluate.{Context, user_of, find_override, evaluate_flag, evaluate_variant}
use flagbase.Feature.Evaluate.Stages.{override_decides, evaluate_flag-pin}
use flagbase.Feature.Engine.{Engine, collect, create_override}
use flagbase.Feature.Engine.Steps.{by_sql}
use flagbase.Feature.Engine.Caching.{loaded, view, reload-view}

module _ (order : Sorting) where
  lookup-loaded :
      (t : Tables) (key : String) (m : List (String × Flag))
      → lookup key (map (loaded order t) m)
        ≡ Option.map (λ f. (loaded order t (key, f)).1) (lookup key m)
  lookup-loaded t key [] = refl
  lookup-loaded t key ((j, f) ∷ m) = elim (Bool-cases (j == key)) [
    | inl e ↦ rw e (ap (λ k. some (loaded order t (k, f)).1) ((eq_iff j key).0 e))
    | inr e ↦ rw e (lookup-loaded t key m)
  ]

  -- What a pinning that returns has done.
  abbrev Pinned : ℕ → Override → Engine → Engine → Type 0
  Pinned now o e u =
      (id : String) × (upsert_override (record o { id = id; created_at = now }) e.db
        ≡ ok (tt, u.db))
      × (u.flags ≡ view order u.db)

  create_override-Pinned :
      (now : ℕ) (o : Override) (e : Engine)
      → Ensures e (create_override order now o) (λ _ u. Pinned now o e u) (λ _ _. Unit)
  unfolding create_override
  create_override-Pinned now o e =
      by_bind (λ _ u. u ≡ e) (by_consequence (new_id-same e) (λ _ u k. k) (λ _ u k. tt))
        λ id u k.
          by_sql u (upsert_override _) tt (λ x h. tt)
            λ a t h.
              by_consequence (reload-view order (record u { db = t }))
                (λ _ v q. (
                  id,
                  ap (λ (x : Engine). upsert_override (record o { id = id; created_at = now }) x.db)
                        (sym k)
                      ∙ h
                      ∙ ap (λ (x : Engine). ok (tt, x.db)) (sym q),
                  ap (λ (x : Engine). x.flags) q ∙ ap (λ (x : Engine). view order x.db) (sym q),
                ))
                (λ _ v q. tt)

  overrides-loaded :
      (t : Tables) (key : String) (m : List (String × Flag)) {f : Flag}
      → lookup key (map (loaded order t) m) ≡ some f
      → f.overrides ≡ load_overrides order key t
  overrides-loaded t key m h = go (lookup key m) (sym (lookup-loaded t key m) ∙ h)
    where
      go :
          (o : Option Flag) {f : Flag}
          → Option.map (λ g. (loaded order t (key, g)).1) o ≡ some f
          → f.overrides ≡ load_overrides order key t
      go none e = absurd (cc)
      go (some g) e = cc

  -- After CreateOverride has returned, the flag, if it is there, enabled and not deprecated,
  -- evaluates for the pinned user to the pinned variant, in draft and testing too.
  pub create_override_pins :
      (un : Unicode) (now : ℕ) (o : Override) (s u : Session Engine) (f : Flag) (ctx : Context)
      → create_override order now o s ≡ (ok tt, u)
      → lookup o.flag_key u.state.flags ≡ some f
      → f.enabled ≡ true
      → f.status ≢ flag_status_deprecated
      → user_of ctx ≡ o.user_id
      → o.user_id ≢ ""
      → o.user_id ≢ "anonymous"
      → evaluate_variant un u.state.flags o.flag_key ctx ≡ o.variant_key
  unfolding evaluate_variant view
  create_override_pins un now o s u f ctx done found on live who known named =
      let (id, upserted, fresh) = on_ok s u (create_override-Pinned now o s.state) done in
      let os : f.overrides ≡ load_overrides order o.flag_key u.state.db =
        overrides-loaded u.state.db o.flag_key _ (ap (lookup o.flag_key) (sym fresh) ∙ found) in
      let pin : find_override (user_of ctx) f.overrides ≡ some o.variant_key =
        ap (λ w. find_override w f.overrides) who
        ∙ ap (find_override o.user_id) os
        ∙ find_override-upsert order (record o { id = id; created_at = now }) s.state.db u.state.db
            upserted in
      rw (found, evaluate_variant)
        (override_decides un ctx f o.variant_key on live (λ e. known (sym who ∙ e))
          (λ e. named (sym who ∙ e)) pin)

  -- A flag loaded from two states of the tables that differ in others' overrides alone.
  loaded-agree :
      (un : Unicode) (ctx : Context) (t t' : Tables) (key : String) (f : Flag)
      → t'.flag_rules ≡ t.flag_rules
      → t'.flag_variants ≡ t.flag_variants
      → find_override (user_of ctx) (load_overrides order key t')
        ≡ find_override (user_of ctx) (load_overrides order key t)
      → evaluate_flag un ctx (loaded order t' (key, f)).1
        ≡ evaluate_flag un ctx (loaded order t (key, f)).1
  loaded-agree un ctx t t' key f rules variants pin =
      evaluate_flag-pin un ctx
        (record f {
          rules = load_rules order key t';
          variants = load_variants order key t';
          overrides = load_overrides order key t;
        })
        (load_overrides order key t') pin
      ∙ ap₂
          (λ (rs : List Rule) (vs : List Variant).
            evaluate_flag un ctx
              (record f { rules = rs; variants = vs; overrides = load_overrides order key t }))
          (load_rules-agree order key t t' rules) (load_variants-agree order key t t' variants)

  evaluate-missing :
      (un : Unicode) (ctx : Context) (key : String) (m : List (String × Flag))
      → lookup key m ≡ none
      → evaluate_variant un m key ctx ≡ "false"
  unfolding evaluate_variant
  evaluate-missing un ctx key m e = rw (e, evaluate_variant)

  evaluate-found :
      (un : Unicode) (ctx : Context) (key : String) (m : List (String × Flag)) {f : Flag}
      → lookup key m ≡ some f
      → evaluate_variant un m key ctx ≡ evaluate_flag un ctx f
  unfolding evaluate_variant
  evaluate-found un ctx key m e = rw (e, evaluate_variant)

  view-agree :
      (un : Unicode) (ctx : Context) (t t' : Tables) (key : String)
      → t'.feature_flags ≡ t.feature_flags
      → t'.flag_rules ≡ t.flag_rules
      → t'.flag_variants ≡ t.flag_variants
      → find_override (user_of ctx) (load_overrides order key t')
        ≡ find_override (user_of ctx) (load_overrides order key t)
      → evaluate_variant un (view order t') key ctx ≡ evaluate_variant un (view order t) key ctx
  unfolding view
  view-agree un ctx t t' key flags rules variants pin =
      go (lookup key (collect t.feature_flags [])) refl
    where
      same : List FlagRow → Option Flag
      same l = lookup key (collect l [])

      found-in :
          (x : Tables) (o : Option Flag)
          → lookup key (collect x.feature_flags []) ≡ o
          → lookup key (view order x) ≡ Option.map (λ f. (loaded order x (key, f)).1) o
      found-in x o e = lookup-loaded x key _ ∙ ap (Option.map (λ f. (loaded order x (key, f)).1)) e

      go :
          (found : Option Flag)
          → lookup key (collect t.feature_flags []) ≡ found
          → evaluate_variant un (view order t') key ctx ≡ evaluate_variant un (view order t) key ctx
      go none e =
          evaluate-missing un ctx key _ (found-in t' none (ap same flags ∙ e))
          ∙ sym (evaluate-missing un ctx key _ (found-in t none e))
      go (some f) e =
          evaluate-found un ctx key _ (found-in t' (some f) (ap same flags ∙ e))
          ∙ loaded-agree un ctx t t' key f rules variants pin
          ∙ sym (evaluate-found un ctx key _ (found-in t (some f) e))

  -- CreateOverride changes the evaluation of no other flag, and of its own flag for no other caller.
  pub create_override_isolated :
      (un : Unicode) (now : ℕ) (o : Override) (s u : Session Engine) (key : String) (ctx : Context)
      → s.state.flags ≡ view order s.state.db
      → IsSound s.state.db
      → create_override order now o s ≡ (ok tt, u)
      → (o.flag_key ≢ key) ⊎ (o.user_id ≢ user_of ctx)
      → evaluate_variant un u.state.flags key ctx ≡ evaluate_variant un s.state.flags key ctx
  create_override_isolated un now o s u key ctx fresh sound done other =
      let (id, upserted, fresh') = on_ok s u (create_override-Pinned now o s.state) done in
      let (flags, rules, variants) = upsert-rest _ s.state.db u.state.db upserted in
      ap (λ m. evaluate_variant un m key ctx) fresh'
      ∙ view-agree un ctx s.state.db u.state.db key flags rules variants (
          find_override-upsert_other order (record o { id = id; created_at = now }) s.state.db
            u.state.db key (user_of ctx) upserted sound other)
      ∙ ap (λ m. evaluate_variant un m key ctx) (sym fresh)
