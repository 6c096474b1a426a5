-- ===== src/Feature/Tables/Sound.antt =====
-- The constraints of the schema hold after each statement: keys are unique, and each rule, variant
-- and override belongs to a flag.
use flagbase.Prelude.{
  ℕ, String, Bool, true, false, ◌&&◌, ◌||◌, ◌≡◌, refl, ◌∙◌, List, [], ◌∷◌, ◌++◌, arith, ◌==◌, any,
  update_where, All, Distinct, Distinct-append, Distinct-update_where, All-append, All-update_where,
  All-imp, any-append, any-update_where, any-or, if◌then◌else◌,
}
use flagbase.Db
use flagbase.Db.{Result, ok, err}
use flagbase.Feature.{FlagStatus, Rule, Variant, Override}
use flagbase.Feature.Tables.{
  FlagRow, Tables, has_flag, insert_flag_row, insert_rule_row, update_flag_row, updated,
  update_status, insert_variant, same_target, upsert_override,
}

abbrev pub same_key : FlagRow → FlagRow → Bool
same_key f g = f.key == g.key

abbrev pub same_variant : Variant → Variant → Bool
same_variant v w = v.flag_key == w.flag_key && v.key == w.key

pub record IsSound (t : Tables) : Type 0 where
  pub keys : Distinct same_key t.feature_flags
  pub variants : Distinct same_variant t.flag_variants
  pub targets : Distinct (λ p o. same_target o p) t.flag_overrides
  pub rule_flags : All (λ r. has_flag t r.flag_key ≡ true) t.flag_rules
  pub variant_flags : All (λ v. has_flag t v.flag_key ≡ true) t.flag_variants
  pub override_flags : All (λ o. has_flag t o.flag_key ≡ true) t.flag_overrides

-- A statement that may break a constraint: it is sound if it goes through.
abbrev pub Sound : {A : Type 0} → Result (A × Tables) → Type 0
Sound (ok (a, t)) = IsSound t
Sound (err e) = Unit

insert_flag-has :
    (f : FlagRow) (fs : List FlagRow) (key : String)
    → any (λ g. g.key == key) fs ≡ true
    → any (λ g. g.key == key) (fs ++ f ∷ []) ≡ true
insert_flag-has f fs key h = ground (arith, any-append (λ (g : FlagRow). g.key == key) fs f)

pub insert_flag_row-IsSound : (f : FlagRow) (t : Tables) → IsSound t → Sound (insert_flag_row f t)
unfolding insert_flag_row
insert_flag_row-IsSound f t s = go (any (λ g. g.id == f.id || g.key == f.key) t.feature_flags) refl
  where
    go :
        (b : Bool)
        → any (λ g. g.id == f.id || g.key == f.key) t.feature_flags ≡ b
        → Sound (
            if b
            then err Db.unique
            else ok (tt, record t { feature_flags = t.feature_flags ++ f ∷ [] }))
    go true e = tt
    go false e = record {
      keys =
          Distinct-append same_key t.feature_flags f s.keys
            (any-or (λ g. g.id == f.id) (λ g. g.key == f.key) _ e).1;
      variants = s.variants;
      targets = s.targets;
      rule_flags = All-imp _ _ _ (λ r. insert_flag-has f _ r.flag_key) s.rule_flags;
      variant_flags = All-imp _ _ _ (λ r. insert_flag-has f _ r.flag_key) s.variant_flags;
      override_flags = All-imp _ _ _ (λ r. insert_flag-has f _ r.flag_key) s.override_flags;
    }

pub insert_rule_row-IsSound : (r : Rule) (t : Tables) → IsSound t → Sound (insert_rule_row r t)
unfolding insert_rule_row
insert_rule_row-IsSound r t s =
    go (any (λ q. q.id == r.id) t.flag_rules) (has_flag t r.flag_key) refl
  where
    go :
        (b c : Bool)
        → has_flag t r.flag_key ≡ c
        → Sound (
            if b
            then err Db.unique
            else if c
            then ok (tt, record t { flag_rules = t.flag_rules ++ r ∷ [] })
            else err Db.foreign_key)
    go true c e = tt
    go false false e = tt
    go false true e = record {
      keys = s.keys;
      variants = s.variants;
      targets = s.targets;
      rule_flags = All-append _ t.flag_rules r s.rule_flags e;
      variant_flags = s.variant_flags;
      override_flags = s.override_flags;
    }

pub insert_variant-IsSound : (v : Variant) (t : Tables) → IsSound t → Sound (insert_variant v t)
unfolding insert_variant
insert_variant-IsSound v t s = go (any taken t.flag_variants) (has_flag t v.flag_key) refl refl
  where
    taken : Variant → Bool
    taken w = w.id == v.id || w.flag_key == v.flag_key && w.key == v.key

    go :
        (b c : Bool)
        → any taken t.flag_variants ≡ b
        → has_flag t v.flag_key ≡ c
        → Sound (
            if b
            then err Db.unique
            else if c
            then ok (tt, record t { flag_variants = t.flag_variants ++ v ∷ [] })
            else err Db.foreign_key)
    go true c d e = tt
    go false false d e = tt
    go false true d e = record {
      keys = s.keys;
      variants =
          Distinct-append same_variant t.flag_variants v s.variants
            (any-or (λ w. w.id == v.id) (λ w. same_variant w v) _ d).1;
      targets = s.targets;
      rule_flags = s.rule_flags;
      variant_flags = All-append _ t.flag_variants v s.variant_flags e;
      override_flags = s.override_flags;
    }

pub upsert_override-IsSound : (o : Override) (t : Tables) → IsSound t → Sound (upsert_override o t)
unfolding upsert_override
upsert_override-IsSound o t s =
    go (any (λ p. p.id == o.id) t.flag_overrides) (any (same_target o) t.flag_overrides)
      (has_flag t o.flag_key) refl refl
  where
    changed : Override → Override
    changed p = record p { variant_key = o.variant_key }

    go :
        (a b c : Bool)
        → any (same_target o) t.flag_overrides ≡ b
        → has_flag t o.flag_key ≡ c
        → Sound (
            if a
            then err Db.unique
            else if b
            then ok (
              tt,
              record t { flag_overrides = update_where (same_target o) changed t.flag_overrides },
            )
            else if c
            then ok (tt, record t { flag_overrides = t.flag_overrides ++ o ∷ [] })
            else err Db.foreign_key)
    go true b c d e = tt
    go false true c d e = record {
      keys = s.keys;
      variants = s.variants;
      targets =
          Distinct-update_where _ (same_target o) changed t.flag_overrides (λ p q. refl)
            (λ p q. refl) s.targets;
      rule_flags = s.rule_flags;
      variant_flags = s.variant_flags;
      override_flags = All-update_where _ _ changed t.flag_overrides (λ p h. h) s.override_flags;
    }
    go false false false d e = tt
    go false false true d e = record {
      keys = s.keys;
      variants = s.variants;
      targets = Distinct-append (λ p q. same_target q p) t.flag_overrides o s.targets d;
      rule_flags = s.rule_flags;
      variant_flags = s.variant_flags;
      override_flags = All-append _ t.flag_overrides o s.override_flags e;
    }

-- Changing rows in place, without their keys.
update-IsSound :
    (p : FlagRow → Bool) (f : FlagRow → FlagRow) (t : Tables)
    → ((g : FlagRow) → (f g).key ≡ g.key)
    → IsSound t
    → IsSound (record t { feature_flags = update_where p f t.feature_flags })
update-IsSound p f t k s = record {
  keys =
      Distinct-update_where same_key p f t.feature_flags (λ x y. rw (k x)) (λ x y. rw (k y)) s.keys;
  variants = s.variants;
  targets = s.targets;
  rule_flags = All-imp _ _ _ (λ r. has r.flag_key) s.rule_flags;
  variant_flags = All-imp _ _ _ (λ r. has r.flag_key) s.variant_flags;
  override_flags = All-imp _ _ _ (λ r. has r.flag_key) s.override_flags;
}
  where
    has :
        (key : String)
        → has_flag t key ≡ true
        → any (λ g. g.key == key) (update_where p f t.feature_flags) ≡ true
    has key h = any-update_where (λ g. g.key == key) p f t.feature_flags (λ g. rw (k g)) ∙ h

pub update_flag_row-IsSound :
    (key name description : String) (enabled default_value : Bool) (status : FlagStatus) (now : ℕ)
    (t : Tables)
    → IsSound t
    → IsSound (update_flag_row key name description enabled default_value status now t)
unfolding update_flag_row
update_flag_row-IsSound key name description enabled default_value status now t s =
    update-IsSound (λ f. f.key == key) (updated name description enabled default_value status now) t
      (λ g. refl) s

pub update_status-IsSound :
    (key : String) (status : FlagStatus) (now : ℕ) (t : Tables)
    → IsSound t
    → IsSound (update_status key status now t)
unfolding update_status
update_status-IsSound key status now t s =
    update-IsSound (λ f. f.key == key) (λ f. record f { status = status; updated_at = now }) t
      (λ g. refl) s
