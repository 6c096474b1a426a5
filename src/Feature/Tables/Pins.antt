-- ===== src/Feature/Tables/Pins.antt =====
-- Which override a list of rows has for a user, whatever order the database returns them in.
pub mod Upsert
use flagbase.Prelude.{
  ℕ, ◌+◌, ◌≤◌, String, Bool, true, false, not, ◌&&◌, ◌≡◌, ◌≢◌, refl, sym, ◌∙◌, List, [], ◌∷◌, ◌++◌,
  arith, ◌==◌, eq_iff, any, keep, update_where, All, Distinct, Option, none, some, Option-cases,
  inl, inr, ◌⊎◌, Bool-cases, if◌then◌else◌,
}
use flagbase.Db
use flagbase.Db.{ok, err}
use flagbase.Sorting.{Sorting, count}
use flagbase.Sorting.Counting.{
  count-keep, count-append, count-update_where, count-none, count-any, count-Distinct, count-ext,
  count-add-le,
}
use flagbase.Feature.{Override}
use flagbase.Feature.Tables.{Tables, same_target, upsert_override, load_overrides}
use flagbase.Feature.Evaluate.{find_override}

-- The override is for the user, and says `v`.
abbrev pub says : String → String → Override → Bool
says w v o = o.user_id == w && o.variant_key == v

abbrev pub is_for : String → Override → Bool
is_for w o = o.user_id == w

find-some :
    (w v : String) (os : List Override) → find_override w os ≡ some v → 1 ≤ count (says w v) os
unfolding find_override
find-some w v [] h = absurd (cc)
find-some w v (o ∷ os) h = ground (arith, eq_iff o.variant_key v, find-some w v os)

find-none :
    (w v : String) (os : List Override) → find_override w os ≡ none → count (says w v) os ≡ 0
unfolding find_override
find-none w v [] h = refl
find-none w v (o ∷ os) h = ground (arith, find-none w v os)

says-apart :
    (w v v' : String) (os : List Override)
    → v ≢ v'
    → count (says w v) os + count (says w v') os ≤ count (is_for w) os
says-apart w v v' os n =
    count-add-le (says w v) (says w v') (is_for w) os
      (λ o e. ground (arith, eq_iff o.variant_key v, eq_iff o.variant_key v')) (λ o e. ground arith)

-- Two lists with the same overrides, at most one of them for the user, agree on the user.
pub find_override-count :
    (w : String) (os ps : List Override)
    → ((v : String) → count (says w v) os ≡ count (says w v) ps)
    → count (is_for w) os ≤ 1
    → find_override w os ≡ find_override w ps
find_override-count w os ps same one = go (find_override w os) (find_override w ps) refl refl
  where
    go :
        (a b : Option String)
        → find_override w os ≡ a
        → find_override w ps ≡ b
        → find_override w os ≡ find_override w ps
    go none none e f = e ∙ sym f
    go none (some v) e f = absurd (omega (arith, find-none w v os e, find-some w v ps f, same v))
    go (some v) none e f = absurd (omega (arith, find-some w v os e, find-none w v ps f, same v))
    go (some v) (some v') e f = elim (Bool-cases (v == v')) [
      | inl q ↦ ground (arith, eq_iff v v')
      | inr q ↦
          let n : v ≢ v' = ground (arith, eq_iff v v') in
          absurd (
            omega (arith, find-some w v os e, find-some w v' ps f, same v', says-apart w v v' os n))
    ]

-- If no override for the user says anything else than `v`, and there is one, it is found.
pub find_override-only :
    (w v : String) (os : List Override)
    → 1 ≤ count (is_for w) os
    → count (λ o. is_for w o && not (o.variant_key == v)) os ≡ 0
    → find_override w os ≡ some v
unfolding find_override
find_override-only w v [] h n = absurd (omega arith)
find_override-only w v (o ∷ os) h n =
    ground (arith, eq_iff o.variant_key v, find_override-only w v os)

abbrev pub repinned : Override → List Override → List Override
repinned o = update_where (same_target o) (λ p. record p { variant_key = o.variant_key })

-- An upsert that goes through changes the table of overrides alone, there in place or at the end.
pub upsert_cases :
    (o : Override) (t t' : Tables)
    → upsert_override o t ≡ ok (tt, t')
    → (t' ≡ record t { flag_overrides = repinned o t.flag_overrides })
        × (any (same_target o) t.flag_overrides ≡ true)
      ⊎ (t' ≡ record t { flag_overrides = t.flag_overrides ++ o ∷ [] })
        × (any (same_target o) t.flag_overrides ≡ false)
unfolding upsert_override
upsert_cases o t t' done = ground arith

-- An override of the flag for the user.
abbrev pub at : String → String → Override → Bool
at key w o = is_for w o && o.flag_key == key

abbrev pub at_saying : String → String → String → Override → Bool
at_saying key w v o = says w v o && o.flag_key == key

abbrev pub at_denying : String → String → String → Override → Bool
at_denying key w v o = (is_for w o && not (o.variant_key == v)) && o.flag_key == key

module _ (o : Override) (os : List Override) where
  repinned-denying : count (at_denying o.flag_key o.user_id o.variant_key) (repinned o os) ≡ 0
  repinned-denying = go os
    where
      go :
          (l : List Override)
          → count (at_denying o.flag_key o.user_id o.variant_key) (repinned o l) ≡ 0
      go [] = refl
      go (p ∷ l) = ground (arith, go l, eq_iff o.variant_key o.variant_key)

  repinned-at : (key w : String) → count (at key w) (repinned o os) ≡ count (at key w) os
  repinned-at key w = count-update_where (at key w) (same_target o) _ os (λ p h. refl)

  -- Where the table had no row for the target, none denies it.
  fresh-denying :
      (l : List Override)
      → any (same_target o) l ≡ false
      → count (at_denying o.flag_key o.user_id o.variant_key) l ≡ 0
  fresh-denying [] h = refl
  fresh-denying (p ∷ l) h = ground (arith, fresh-denying l)
