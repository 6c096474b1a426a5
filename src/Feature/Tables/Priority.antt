-- ===== src/Feature/Tables/Priority.antt =====
-- Of the rules that apply, one of least priority number decides.
use flagbase.Prelude.{
  Some, String, Bool, true, false, not, ◌&&◌, ◌≡◌, ◌≢◌, eq_iff, refl, sym, ◌∙◌, List, [], ◌∷◌,
  arith, ◌==◌, All, All-imp, some, inl, inr, ◌⊎◌, Bool-cases,
}
use flagbase.Prelude.Int.{ℤ, pos, negsuc, leb_ℤ}
use flagbase.Text.{Unicode}
use flagbase.Sorting.{Sorting, IsSorted, IsOrder, count}
use flagbase.Sorting.Counting.{count-keep, count-none, All-count}
use flagbase.Feature.{Rule}
use flagbase.Feature.Tables.{Tables, load_rules}
use flagbase.Feature.Evaluate.{Context, applies, find_rule, resolve_rule_variant}

abbrev by_priority : Rule → Rule → Bool
by_priority q r = leb_ℤ q.priority r.priority

leb_total : (a b : ℤ) → (leb_ℤ a b ≡ true) ⊎ (leb_ℤ b a ≡ true)
leb_total (pos a) (pos b) = ground arith
leb_total (pos a) (negsuc b) = inr refl
leb_total (negsuc a) (pos b) = inl refl
leb_total (negsuc a) (negsuc b) = ground arith

leb_trans : (a b c : ℤ) → leb_ℤ a b ≡ true → leb_ℤ b c ≡ true → leb_ℤ a c ≡ true
leb_trans (pos a) (pos b) (pos c) h k = ground arith
leb_trans (pos a) (pos b) (negsuc c) h k = absurd (cc)
leb_trans (pos a) (negsuc b) c h k = absurd (cc)
leb_trans (negsuc a) (pos b) (pos c) h k = refl
leb_trans (negsuc a) (pos b) (negsuc c) h k = absurd (cc)
leb_trans (negsuc a) (negsuc b) (pos c) h k = refl
leb_trans (negsuc a) (negsuc b) (negsuc c) h k = ground arith

by_priority-IsOrder : IsOrder by_priority
by_priority-IsOrder =
    (λ q r. leb_total q.priority r.priority, λ p q r. leb_trans p.priority q.priority r.priority)

count-Some :
    {A : Type 0} {P : A → Type 0} (p : A → Bool) (xs : List A)
    → count p xs ≢ 0
    → ((x : A) → p x ≡ true → P x)
    → Some P xs
count-Some p [] h k = absurd (h refl)
count-Some p (x ∷ xs) h k = elim (Bool-cases (p x)) [
  | inl e ↦ inl (k x e)
  | inr e ↦ inr (count-Some p xs (λ z. h (ground (arith, e, z))) k)
]

module _ (u : Unicode) (ctx : Context) where
  -- The rule applies and comes before `r`.
  abbrev pub beats : Rule → Rule → Bool
  beats r q = applies u ctx q && not (by_priority r q)

  sorted_winner :
      (rs : List Rule) (v : String)
      → IsSorted by_priority rs
      → find_rule u ctx rs ≡ some v
      → (r : Rule) × ((p : Rule → Bool) → p r ≡ true → count p rs ≢ 0)
        × (resolve_rule_variant r ≡ v)
        × (applies u ctx r ≡ true)
        × All (λ q. beats r q ≡ false) rs
  unfolding find_rule
  sorted_winner [] v s h = absurd (cc)
  sorted_winner (r ∷ rs) v (below, s) h = elim (Bool-cases (applies u ctx r)) [
    | inl e ↦ (
      r,
      λ p k. ground arith,
      ground arith,
      e,
      (ground (arith, by_priority-IsOrder.0 r r), All-imp _ _ rs (λ q k. ground arith) below),
    )
    | inr e ↦
        let (w, there, says, on, none_better) = sorted_winner rs v s (ground arith) in
        (w, λ p k z. there p k (omega arith), says, on, (ground arith, none_better))
  ]

  -- A rule of the table that decides for the variant: it is the flag's and applies, and no rule of
  -- the flag that applies has a smaller priority.
  abbrev pub Decides : String → String → List Rule → Rule → Type 0
  Decides key v rules r =
      (r.flag_key ≡ key)
      × (resolve_rule_variant r ≡ v)
      × (applies u ctx r ≡ true)
      × All (λ q. (beats r q && (q.flag_key == key)) ≡ false) rules

  abbrev as_good : String → Rule → Rule → Bool
  as_good v w r = applies u ctx r && (resolve_rule_variant r == v) && by_priority r w

  as_good-Decides :
      (key v : String) (rules : List Rule) (w r : Rule)
      → All (λ q. (beats w q && (q.flag_key == key)) ≡ false) rules
      → (as_good v w r && (r.flag_key == key)) ≡ true
      → Decides key v rules r
  as_good-Decides key v rules w r none_better h = (
    ground (arith, eq_iff r.flag_key key),
    ground (arith, eq_iff (resolve_rule_variant r) v),
    ground arith,
    All-imp _ _ rules
        (λ q k.
          ground
            (arith, leb_trans r.priority w.priority q.priority, leb_total w.priority q.priority))
        none_better,
  )

  -- The variant that the loop over a flag's loaded rules finds is that of a rule which is in the
  -- table, belongs to the flag and applies, and no rule of the flag in the table that applies has a
  -- smaller priority.
  pub find_rule-least :
      (order : Sorting) (key : String) (t : Tables) (v : String)
      → find_rule u ctx (load_rules order key t) ≡ some v
      → Some (Decides key v t.flag_rules) t.flag_rules
  unfolding load_rules
  find_rule-least order key t v h =
      let (w, there, says, on, none_better) =
        sorted_winner _ v (order.sort_sorted Rule by_priority by_priority-IsOrder _) h in
      let least : All (λ q. (beats w q && (q.flag_key == key)) ≡ false) t.flag_rules =
        All-count _ t.flag_rules (
          sym (count-keep (beats w) _ t.flag_rules)
          ∙ sym (order.sort_count Rule by_priority _ (beats w))
          ∙ count-none (beats w) _ none_better) in
      let counted : count (λ r. as_good v w r && (r.flag_key == key)) t.flag_rules ≢ 0 = λ z.
        there (as_good v w)
          (ground (arith, eq_iff (resolve_rule_variant w) v, leb_total w.priority w.priority))
          (order.sort_count Rule by_priority _ (as_good v w)
            ∙ (count-keep (as_good v w) (λ r. r.flag_key == key) t.flag_rules ∙ z)) in
      count-Some _ t.flag_rules counted (λ r. as_good-Decides key v t.flag_rules w r least)
