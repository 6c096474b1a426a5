-- ===== src/Feature/Tables/Deletion.antt =====
-- The deletions keep the constraints of the schema: a deleted flag takes with it every row that
-- refers to it, and no other.
use flagbase.Prelude.{
  String, true, not, ◌≡◌, List, arith, ◌==◌, eq_iff, any, keep, Distinct-keep, All-keep,
  All-keep_imp, any-keep, ◌∙◌,
}
use flagbase.Feature.Tables.{
  FlagRow, Tables, delete_flag_row, delete_variant_rows, delete_override_rows,
}
use flagbase.Feature.Tables.Sound.{IsSound, same_key, same_variant}

-- A flag with another key than the deleted one is still there.
has_flag-keep :
    (key other : String) (fs : List FlagRow)
    → any (λ g. g.key == other) fs ≡ true
    → not (other == key) ≡ true
    → any (λ g. g.key == other) (keep (λ f. not (f.key == key)) fs) ≡ true
has_flag-keep key other fs h n =
    any-keep (λ g. g.key == other) (λ f. not (f.key == key)) fs
      (λ g e. ground (arith, eq_iff g.key other, eq_iff g.key key, eq_iff other key))
    ∙ h

pub delete_flag_row-IsSound :
    (key : String) (t : Tables) → IsSound t → IsSound (delete_flag_row key t)
unfolding delete_flag_row
delete_flag_row-IsSound key t s = record {
  keys = Distinct-keep same_key _ t.feature_flags s.keys;
  variants = Distinct-keep same_variant _ t.flag_variants s.variants;
  targets = Distinct-keep _ _ t.flag_overrides s.targets;
  rule_flags =
      All-keep_imp _ _ _ t.flag_rules (λ r. has_flag-keep key r.flag_key t.feature_flags)
        s.rule_flags;
  variant_flags =
      All-keep_imp _ _ _ t.flag_variants (λ v. has_flag-keep key v.flag_key t.feature_flags)
        s.variant_flags;
  override_flags =
      All-keep_imp _ _ _ t.flag_overrides (λ o. has_flag-keep key o.flag_key t.feature_flags)
        s.override_flags;
}

pub delete_variant_rows-IsSound :
    (flag_key key : String) (t : Tables) → IsSound t → IsSound (delete_variant_rows flag_key key t)
unfolding delete_variant_rows
delete_variant_rows-IsSound flag_key key t s = record {
  keys = s.keys;
  variants = Distinct-keep same_variant _ t.flag_variants s.variants;
  targets = s.targets;
  rule_flags = s.rule_flags;
  variant_flags = All-keep _ _ t.flag_variants s.variant_flags;
  override_flags = s.override_flags;
}

pub delete_override_rows-IsSound :
    (flag_key user_id : String) (t : Tables)
    → IsSound t
    → IsSound (delete_override_rows flag_key user_id t)
unfolding delete_override_rows
delete_override_rows-IsSound flag_key user_id t s = record {
  keys = s.keys;
  variants = s.variants;
  targets = Distinct-keep _ _ t.flag_overrides s.targets;
  rule_flags = s.rule_flags;
  variant_flags = s.variant_flags;
  override_flags = All-keep _ _ t.flag_overrides s.override_flags;
}
