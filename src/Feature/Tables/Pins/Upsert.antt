-- ===== src/Feature/Tables/Pins/Upsert.antt =====
-- What an upsert does to the overrides of each flag and user.
use flagbase.Prelude.{
  ◌≤◌, String, Bool, not, ◌&&◌, ◌≡◌, ◌≢◌, sym, ap, ◌∙◌, arith, ◌==◌, eq_iff, some, inl, inr, ◌⊎◌,
  subst,
}
use flagbase.Db.{ok}
use flagbase.Sorting.{Sorting, count}
use flagbase.Sorting.Counting.{
  count-keep, count-append, count-update_where, count-any, count-Distinct, count-ext,
}
use flagbase.Feature.{Override}
use flagbase.Feature.Tables.{
  Tables, same_target, upsert_override, load_overrides, load_rules, load_variants,
}
use flagbase.Feature.Tables.Sound.{IsSound}
use flagbase.Feature.Evaluate.{find_override}
use flagbase.Feature.Tables.Pins.{
  says, is_for, upsert_cases, at, at_saying, at_denying, repinned-denying, repinned-at,
  fresh-denying, find_override-count, find_override-only,
}

module _ (o : Override) (t t' : Tables) (done : upsert_override o t ≡ ok (tt, t')) where
  -- Afterwards the target has a row.
  upsert-at : 1 ≤ count (at o.flag_key o.user_id) t'.flag_overrides
  upsert-at = elim (upsert_cases o t t' done) [
    | inl (e, had) ↦ omega (
      arith,
      ap (λ (x : Tables). count (at o.flag_key o.user_id) x.flag_overrides) e,
      repinned-at o t.flag_overrides o.flag_key o.user_id,
      count-any (same_target o) t.flag_overrides had,
      count-ext (same_target o) (at o.flag_key o.user_id) t.flag_overrides (λ p. ground arith),
    )
    | inr (e, new) ↦ ground (
      arith,
      ap (λ (x : Tables). count (at o.flag_key o.user_id) x.flag_overrides) e,
      count-append (at o.flag_key o.user_id) t.flag_overrides o,
      eq_iff o.flag_key o.flag_key,
      eq_iff o.user_id o.user_id,
    )
  ]

  -- No row of the target says anything else.
  upsert-denying : count (at_denying o.flag_key o.user_id o.variant_key) t'.flag_overrides ≡ 0
  upsert-denying = elim (upsert_cases o t t' done) [
    | inl (e, had) ↦
        ap (λ (x : Tables). count (at_denying o.flag_key o.user_id o.variant_key) x.flag_overrides)
          e
        ∙ repinned-denying o t.flag_overrides
    | inr (e, new) ↦ ground (
      arith,
      ap (λ (x : Tables). count (at_denying o.flag_key o.user_id o.variant_key) x.flag_overrides) e,
      count-append (at_denying o.flag_key o.user_id o.variant_key) t.flag_overrides o,
      fresh-denying o t.flag_overrides t.flag_overrides new,
      eq_iff o.variant_key o.variant_key,
    )
  ]

  -- Every other flag and user has the rows of before.
  upsert-others :
      (key w v : String)
      → (o.flag_key ≢ key) ⊎ (o.user_id ≢ w)
      → count (at_saying key w v) t'.flag_overrides ≡ count (at_saying key w v) t.flag_overrides
  upsert-others key w v n = elim (upsert_cases o t t' done) [
    | inl (e, had) ↦
        ap (λ (x : Tables). count (at_saying key w v) x.flag_overrides) e
        ∙ count-update_where (at_saying key w v) (same_target o) _ t.flag_overrides (λ p h. ground (
          arith,
          n,
          eq_iff p.flag_key key,
          eq_iff p.user_id w,
          eq_iff p.flag_key o.flag_key,
          eq_iff p.user_id o.user_id,
        ))
    | inr (e, new) ↦ ground (
      arith,
      ap (λ (x : Tables). count (at_saying key w v) x.flag_overrides) e,
      count-append (at_saying key w v) t.flag_overrides o,
      n,
      eq_iff o.flag_key key,
      eq_iff o.user_id w,
    )
  ]

  pub upsert-rest :
      (t'.feature_flags ≡ t.feature_flags)
      × (t'.flag_rules ≡ t.flag_rules)
      × (t'.flag_variants ≡ t.flag_variants)
  upsert-rest = elim (upsert_cases o t t' done) [
    | inl (e, had) ↦ (
      ap (λ (x : Tables). x.feature_flags) e,
      ap (λ (x : Tables). x.flag_rules) e,
      ap (λ (x : Tables). x.flag_variants) e,
    )
    | inr (e, new) ↦ (
      ap (λ (x : Tables). x.feature_flags) e,
      ap (λ (x : Tables). x.flag_rules) e,
      ap (λ (x : Tables). x.flag_variants) e,
    )
  ]

module _ (order : Sorting) where
  load-count :
      (p : Override → Bool) (key : String) (t : Tables)
      → count p (load_overrides order key t)
        ≡ count (λ o. p o && (o.flag_key == key)) t.flag_overrides
  unfolding load_overrides
  load-count p key t = order.sort_count _ _ _ p ∙ count-keep p _ t.flag_overrides

  -- The rows that `reload` finds have the override for its user.
  pub find_override-upsert :
      (o : Override) (t t' : Tables)
      → upsert_override o t ≡ ok (tt, t')
      → find_override o.user_id (load_overrides order o.flag_key t') ≡ some o.variant_key
  find_override-upsert o t t' done =
      find_override-only o.user_id o.variant_key _
        (subst (λ n. 1 ≤ n) (sym (load-count (is_for o.user_id) o.flag_key t'))
          (upsert-at o t t' done))
        (load-count (λ p. is_for o.user_id p && not (p.variant_key == o.variant_key)) o.flag_key t'
          ∙ upsert-denying o t t' done)

  one-at : (key w : String) (t : Tables) → IsSound t → count (at key w) t.flag_overrides ≤ 1
  one-at key w t s =
      count-Distinct (λ p q. same_target q p) (at key w) t.flag_overrides
        (λ p q h k. ground (
          arith,
          eq_iff p.flag_key q.flag_key,
          eq_iff p.user_id q.user_id,
          eq_iff p.flag_key key,
          eq_iff q.flag_key key,
          eq_iff p.user_id w,
          eq_iff q.user_id w,
        ))
        s.targets

  -- For every other flag or user they have the override of before.
  pub find_override-upsert_other :
      (o : Override) (t t' : Tables) (key w : String)
      → upsert_override o t ≡ ok (tt, t')
      → IsSound t
      → (o.flag_key ≢ key) ⊎ (o.user_id ≢ w)
      → find_override w (load_overrides order key t') ≡ find_override w (load_overrides order key t)
  find_override-upsert_other o t t' key w done s n = sym (
      find_override-count w _ _
        (λ v.
          load-count (says w v) key t
          ∙ sym (upsert-others o t t' done key w v n)
          ∙ sym (load-count (says w v) key t'))
        (subst (λ m. m ≤ 1) (sym (load-count (is_for w) key t)) (one-at key w t s)))

  pub load_rules-agree :
      (key : String) (t t' : Tables)
      → t'.flag_rules ≡ t.flag_rules
      → load_rules order key t' ≡ load_rules order key t
  unfolding load_rules
  load_rules-agree key t t' e = rw e

  pub load_variants-agree :
      (key : String) (t t' : Tables)
      → t'.flag_variants ≡ t.flag_variants
      → load_variants order key t' ≡ load_variants order key t
  unfolding load_variants
  load_variants-agree key t t' e = rw e
