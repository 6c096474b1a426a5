-- ===== src/Feature/Evaluate/Matching.antt =====
-- What the operators of a rule mean.
use flagbase.Prelude.{
  Bool, Some, Some-imp, All, any, [], ◌∷◌, ◌⊎◌, ap, sym, ◌∙◌, eq_iff, ℕ, String, true, ◌≡◌, ◌≢◌,
  ◌↔◌, List, ◌++◌, map, arith,
}
use flagbase.Text.{Unicode, codes, equal_fold, to_lower, contains, split, join, trim_space}
use flagbase.Text.Laws.{same_codes_iff, contains_sound, contains-append, split-parts, split-join}
use flagbase.Feature.{Rule}
use flagbase.Feature.Evaluate.{match_rule}

module _ (u : Unicode) (rule : Rule) (val : String) where
  abbrev pub value : List ℕ
  value = codes rule.value

  match-contains :
      rule.operator ≡ "contains"
      → match_rule u rule val ≡ contains (to_lower u (codes val)) (to_lower u value)
  unfolding match_rule
  match-contains h = simp h

  -- A `contains` rule matches exactly if the lower-cased text holds the lower-cased value.
  pub match_rule_contains :
      rule.operator ≡ "contains"
      → (match_rule u rule val ≡ true)
        ↔ ((a b : List ℕ) × (map u.lower (codes val) ≡ a ++ (map u.lower value ++ b)))
  unfolding to_lower
  match_rule_contains h =
      rw (match-contains h) (contains_sound _ _, λ r. rw r.2 (contains-append r.0 _ r.1))

  -- With the operator `equals` the rule matches exactly if the two texts fold to the same code
  -- points, with `not_equals` exactly if they do not.
  pub match_rule_equals :
      ((match_rule u (record rule { operator = "equals" }) val ≡ true)
        ↔ (map u.fold (codes val) ≡ map u.fold value))
      × ((match_rule u (record rule { operator = "not_equals" }) val ≡ true)
          ↔ (map u.fold (codes val) ≢ map u.fold value))
  unfolding match_rule equal_fold
  match_rule_equals = (
    same_codes_iff _ _,
    ground (arith, same_codes_iff (map u.fold (codes val)) (map u.fold value)),
  )

any-Some : {A : Type 0} (p : A → Bool) (xs : List A) → (any p xs ≡ true) ↔ Some (λ x. p x ≡ true) xs
any-Some p [] = (λ h. cc, λ h. absurd h)
any-Some p (x ∷ xs) = ground (arith, any-Some p xs)

module _ (u : Unicode) (rule : Rule) (val : String) where
  -- The lower-cased text holds the lower-cased value.
  pub record Contains : Type 0 where
    pub before : List ℕ
    pub after : List ℕ
    pub held : map u.lower (codes val) ≡ before ++ (map u.lower (codes rule.value) ++ after)

  -- The value is a list of parts with commas between them, and one of them, without the white space
  -- around it, is the text up to letter case.
  pub record Lists : Type 0 where
    pub part : List ℕ
    pub others : List (List ℕ)
    pub whole : join b',' (part ∷ others) ≡ codes rule.value
    pub parts : All (All (λ c. c ≢ b',')) (part ∷ others)
    pub listed : Some (λ p. map u.fold (trim_space p) ≡ map u.fold (codes val)) (part ∷ others)

  Contains_iff :
      (contains (to_lower u (codes val)) (to_lower u (codes rule.value)) ≡ true) ↔ Contains
  unfolding to_lower
  Contains_iff = (
    λ h. let r = contains_sound _ _ h in record { before = r.0; after = r.1; held = r.2 },
    λ r. rw r.held (contains-append r.before _ r.after),
  )

  abbrev fits : List ℕ → Bool
  fits p = equal_fold u (trim_space p) (codes val)

  Lists_iff : (any fits (split b',' (codes rule.value)) ≡ true) ↔ Lists
  unfolding equal_fold
  Lists_iff = (to, from)
    where
      to : any fits (split b',' (codes rule.value)) ≡ true → Lists
      to h =
          let (p, ps, e, j, k) = split-parts b',' (codes rule.value) in
          let found : any fits (p ∷ ps) ≡ true = ap (any fits) (sym e) ∙ h in
          record {
            part = p;
            others = ps;
            whole = j;
            parts = k;
            listed =
                Some-imp _ _ (p ∷ ps) (λ q m. (same_codes_iff _ _).0 m)
                  ((any-Some fits (p ∷ ps)).0 found);
          }

      from : Lists → any fits (split b',' (codes rule.value)) ≡ true
      from l =
          ap (λ s. any fits (split b',' s)) (sym l.whole)
          ∙ (ap (any fits) (split-join b',' l.part l.others l.parts)
              ∙ (any-Some fits (l.part ∷ l.others)).1
                  (Some-imp _ _ (l.part ∷ l.others) (λ q m. (same_codes_iff _ _).1 m) l.listed))

  -- What a rule asks of a text, by its operator; a rule with another operator never matches.
  abbrev pub Asks : Type 0
  Asks =
      ((rule.operator ≡ "equals") × (map u.fold (codes val) ≡ map u.fold (codes rule.value)))
      ⊎ ((rule.operator ≡ "not_equals") × (map u.fold (codes val) ≢ map u.fold (codes rule.value)))
      ⊎ ((rule.operator ≡ "contains") × Contains)
      ⊎ ((rule.operator ≡ "in") × Lists)

  -- A rule matches a text exactly if its operator is `equals` and the two texts are the same up to
  -- letter case, or `not_equals` and they are not, or `contains` and the lower-cased text holds the
  -- lower-cased value, or `in` and the value is a list with commas one of whose parts, without the
  -- white space around it, is the text up to letter case.
  pub match_rule_iff : (match_rule u rule val ≡ true) ↔ Asks
  unfolding match_rule equal_fold
  match_rule_iff = ground (
    arith,
    eq_iff rule.operator "equals",
    eq_iff rule.operator "not_equals",
    eq_iff rule.operator "contains",
    eq_iff rule.operator "in",
    eq_iff "equals" "not_equals",
    eq_iff "equals" "contains",
    eq_iff "equals" "in",
    eq_iff "not_equals" "contains",
    eq_iff "not_equals" "in",
    eq_iff "contains" "in",
    same_codes_iff (map u.fold (codes val)) (map u.fold (codes rule.value)),
    Contains_iff,
    Lists_iff,
  )
