-- ===== src/Feature/Tables.antt =====
-- The SQL of internal/feature/engine.go over the tables of internal/database/db.go: one function
-- for each statement, with the constraints that it can break and the deletions that it cascades.
pub mod Sound
pub mod Deletion
pub mod Pins
pub mod Priority
use flagbase.Prelude.{
  ℕ, String, Bool, ◌&&◌, ◌||◌, not, leb, List, [], ◌∷◌, ◌++◌, any, keep, update_where, ◌==◌,
  if◌then◌else◌,
}
use flagbase.Prelude.Int.{leb_ℤ}
use flagbase.Db.{Result, ok, err, unique, foreign_key}
use flagbase.Text.{codes}
use flagbase.Sorting.{Sorting, leb_text}
use flagbase.Feature.{FlagStatus, Rule, Variant, Override}

-- A row of feature_flags.
pub record FlagRow : Type 0 where
  pub id : String
  pub key : String
  pub name : String
  pub description : String
  pub enabled : Bool
  pub default_value : Bool
  pub status : FlagStatus
  pub created_at : ℕ
  pub updated_at : ℕ

pub record Tables : Type 0 where
  pub feature_flags : List FlagRow
  pub flag_rules : List Rule
  pub flag_variants : List Variant
  pub flag_overrides : List Override

abbrev pub has_flag : Tables → String → Bool
has_flag t key = any (λ f. f.key == key) t.feature_flags

unfoldable pub insert_flag_row : FlagRow → Tables → Result (Unit {0} × Tables)
insert_flag_row f t =
    if any (λ g. g.id == f.id || g.key == f.key) t.feature_flags
    then err unique
    else ok (tt, record t { feature_flags = t.feature_flags ++ f ∷ [] })

pub insert_rule_row : Rule → Tables → Result (Unit {0} × Tables)
insert_rule_row r t =
    if any (λ q. q.id == r.id) t.flag_rules
    then err unique
    else if has_flag t r.flag_key
    then ok (tt, record t { flag_rules = t.flag_rules ++ r ∷ [] })
    else err foreign_key

abbrev pub updated : String → String → Bool → Bool → FlagStatus → ℕ → FlagRow → FlagRow
updated name description enabled default_value status now f = record f {
  name = name;
  description = description;
  enabled = enabled;
  default_value = default_value;
  status = status;
  updated_at = now;
}

-- UPDATE feature_flags SET name, description, enabled, default_value, status, updated_at WHERE key
pub update_flag_row : String → String → String → Bool → Bool → FlagStatus → ℕ → Tables → Tables
update_flag_row key name description enabled default_value status now t = record t {
  feature_flags =
      update_where (λ f. f.key == key) (updated name description enabled default_value status now)
        t.feature_flags;
}

-- UPDATE feature_flags SET status, updated_at WHERE key
pub update_status : String → FlagStatus → ℕ → Tables → Tables
update_status key status now t = record t {
  feature_flags =
      update_where (λ f. f.key == key) (λ f. record f { status = status; updated_at = now })
        t.feature_flags;
}

-- DELETE FROM feature_flags WHERE key, with ON DELETE CASCADE of the three tables that refer to it
pub delete_flag_row : String → Tables → Tables
delete_flag_row key t = record {
  feature_flags = keep (λ f. not (f.key == key)) t.feature_flags;
  flag_rules = keep (λ r. not (r.flag_key == key)) t.flag_rules;
  flag_variants = keep (λ v. not (v.flag_key == key)) t.flag_variants;
  flag_overrides = keep (λ o. not (o.flag_key == key)) t.flag_overrides;
}

pub insert_variant : Variant → Tables → Result (Unit {0} × Tables)
insert_variant v t =
    if any (λ w. w.id == v.id || w.flag_key == v.flag_key && w.key == v.key) t.flag_variants
    then err unique
    else if has_flag t v.flag_key
    then ok (tt, record t { flag_variants = t.flag_variants ++ v ∷ [] })
    else err foreign_key

pub delete_variant_rows : String → String → Tables → Tables
delete_variant_rows flag_key key t = record t {
  flag_variants = keep (λ v. not (v.flag_key == flag_key && v.key == key)) t.flag_variants;
}

abbrev pub same_target : Override → Override → Bool
same_target o p = p.flag_key == o.flag_key && p.user_id == o.user_id

-- INSERT … ON CONFLICT(flag_key, user_id) DO UPDATE SET variant_key
unfoldable pub upsert_override : Override → Tables → Result (Unit {0} × Tables)
upsert_override o t =
    if any (λ p. p.id == o.id) t.flag_overrides
    then err unique
    else if any (same_target o) t.flag_overrides
    then ok (
      tt,
      record t {
        flag_overrides =
            update_where (same_target o) (λ p. record p { variant_key = o.variant_key })
              t.flag_overrides;
      },
    )
    else if has_flag t o.flag_key
    then ok (tt, record t { flag_overrides = t.flag_overrides ++ o ∷ [] })
    else err foreign_key

pub delete_override_rows : String → String → Tables → Tables
delete_override_rows flag_key user_id t = record t {
  flag_overrides =
      keep (λ o. not (o.flag_key == flag_key && o.user_id == user_id)) t.flag_overrides;
}

module _ (db : Sorting) where
  -- loadRules: ORDER BY priority ASC
  unfoldable pub load_rules : String → Tables → List Rule
  load_rules flag_key t =
      db.sort Rule (λ q r. leb_ℤ q.priority r.priority)
        (keep (λ r. r.flag_key == flag_key) t.flag_rules)

  -- loadVariants: ORDER BY key ASC
  unfoldable pub load_variants : String → Tables → List Variant
  load_variants flag_key t =
      db.sort Variant (λ v w. leb_text v.key w.key)
        (keep (λ v. v.flag_key == flag_key) t.flag_variants)

  -- loadOverrides: ORDER BY created_at ASC
  unfoldable pub load_overrides : String → Tables → List Override
  load_overrides flag_key t =
      db.sort Override (λ o p. leb o.created_at p.created_at)
        (keep (λ o. o.flag_key == flag_key) t.flag_overrides)
