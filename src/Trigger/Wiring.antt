-- ===== src/Trigger/Wiring.antt =====
-- internal/trigger/engine.go: the maps of handles know every handler that is registered.
use flagbase.Prelude.{
  ℕ, String, Bool, true, false, ◌≡◌, ◌≢◌, refl, sym, ap, ◌∙◌, inl, inr, List, [], ◌∷◌, lookup, eqb,
  arith, eq_iff, ◌==◌, Option, none, some, Bool-cases, if◌then◌else◌, subst,
}
use flagbase.Trigger.{Handler, Registry, IsRegistry}
use flagbase.Trigger.Engine.{unassign, assign}

pub lookup-unassign :
    (id x : String) (m : List (String × ℕ))
    → lookup x (unassign id m) ≡ (if x == id then none else lookup x m)
lookup-unassign id x [] = if_none (x == id)
  where
    if_none : (b : Bool) → ◌≡◌ {A = Option ℕ} none (if b then none else none)
    if_none true = refl
    if_none false = refl
lookup-unassign id x ((y, n) ∷ m) =
    ground (arith, lookup-unassign id x m, eq_iff y id, eq_iff y x, eq_iff x id)

-- A registry that may be missing.
abbrev pub optional : Registry → Registry
optional R = record {
  State = Option R.State;
  add = λ k h s. elim s [
    | none ↦ none
    | some c ↦ elim (R.add k h c) [ none ↦ none | some (n, d) ↦ some (n, some d) ]
  ];
  remove = λ n s. elim s [ none ↦ none | some c ↦ some (R.remove n c) ];
  held = λ s n. elim s [ none ↦ none | some c ↦ R.held c n ];
}

module _ (R : Registry) where
  -- The handle of each handler that is registered is the one that the map has for its trigger.
  abbrev pub IsTidy : List (String × ℕ) → R.State → Type 0
  IsTidy m s =
      (n : ℕ) (k : String) (h : Handler) → R.held s n ≡ some (k, h) → lookup h.trigger_id m ≡ some n

  -- Nothing is registered for the trigger.
  abbrev pub IsSilent : String → R.State → Type 0
  IsSilent id s = (n : ℕ) (k : String) (h : Handler) → R.held s n ≡ some (k, h) → h.trigger_id ≢ id

  pub IsTidy-IsSilent :
      (id : String) (m : List (String × ℕ)) (s : R.State)
      → IsTidy m s
      → lookup id m ≡ none
      → IsSilent id s
  IsTidy-IsSilent id m s t e n k h q same =
      let known : lookup id m ≡ some n = subst (λ i. lookup i m ≡ some n) same (t n k h q) in cc

  module _ (law : IsRegistry R) where
    pub add-IsTidy :
        (k : String) (h : Handler) (m : List (String × ℕ)) (s t : R.State) (n : ℕ)
        → R.add k h s ≡ some (n, t)
        → IsTidy m s
        → lookup h.trigger_id m ≡ none
        → IsTidy (assign h.trigger_id n m) t
    add-IsTidy k h m s t n e tidy free j l g q = elim (Bool-cases (eqb j n)) [
      | inl b ↦
          let now : R.held t j ≡ some (k, h) = law.add_held k h s t n j e ∙ rw b refl in
          let same : h ≡ g = cc in
          let at_j : n ≡ j = ground arith in
          let own : (h.trigger_id == g.trigger_id) ≡ true =
            ground
              (arith, eq_iff h.trigger_id g.trigger_id, ap (λ (x : Handler). x.trigger_id) same) in
          rw own (ap some at_j)
      | inr b ↦
          let before : R.held s j ≡ some (l, g) =
            sym (law.add_held k h s t n j e ∙ rw b refl) ∙ q in
          let known : lookup g.trigger_id m ≡ some j = tidy j l g before in
          let other : h.trigger_id ≢ g.trigger_id = λ same.
            let both : lookup h.trigger_id m ≡ some j =
              subst (λ i. lookup i m ≡ some j) (sym same) known in
            cc in
          ground (
            arith,
            eq_iff h.trigger_id g.trigger_id,
            eq_iff g.trigger_id h.trigger_id,
            lookup-unassign h.trigger_id g.trigger_id m,
            known,
          )
    ]

    -- Where nothing is registered for the trigger of a handler, it is the only one after it is added.
    pub add-only :
        (k : String) (h : Handler) (s t : R.State) (n : ℕ)
        → R.add k h s ≡ some (n, t)
        → IsSilent h.trigger_id s
        → (j : ℕ) (l : String) (g : Handler) → R.held t j ≡ some (l, g)
        → g.trigger_id ≡ h.trigger_id
        → (l ≡ k) × (g ≡ h)
    add-only k h s t n e silent j l g q same = elim (Bool-cases (eqb j n)) [
      | inl b ↦
          let now : R.held t j ≡ some (k, h) = law.add_held k h s t n j e ∙ rw b refl in
          let one : l ≡ k = cc in let two : g ≡ h = cc in (one, two)
      | inr b ↦
          let before : R.held s j ≡ some (l, g) =
            sym (law.add_held k h s t n j e ∙ rw b refl) ∙ q in
          absurd (silent j l g before same)
    ]

    pub remove-IsTidy :
        (id : String) (m : List (String × ℕ)) (s : R.State) (n : ℕ)
        → lookup id m ≡ some n
        → IsTidy m s
        → IsTidy (unassign id m) (R.remove n s)
    remove-IsTidy id m s n e tidy j l g q = elim (Bool-cases (eqb j n)) [
      | inl b ↦ let gone : R.held (R.remove n s) j ≡ none = law.remove_held s n j ∙ rw b refl in cc
      | inr b ↦
          let before : R.held s j ≡ some (l, g) = sym (law.remove_held s n j ∙ rw b refl) ∙ q in
          let known : lookup g.trigger_id m ≡ some j = tidy j l g before in
          let other : g.trigger_id ≢ id = λ same.
            let both : lookup id m ≡ some j = subst (λ i. lookup i m ≡ some j) same known in
            let at_n : ◌≡◌ {A = Option ℕ} (some j) (some n) = cc in ground (arith, at_n) in
          ground (arith, eq_iff g.trigger_id id, lookup-unassign id g.trigger_id m, known)
    ]

pub optional-IsRegistry : (R : Registry) → IsRegistry R → IsRegistry (optional R)
optional-IsRegistry R law = record {
  add_held = λ k h s t n m e. added k h s t n m e;
  remove_held = λ s n m. removed s n m;
}
  where
    added_some :
        (r : Option (ℕ × R.State)) (t : Option R.State) (n : ℕ)
        → (elim r as (λ _. Option (ℕ × Option R.State)) [
          | none ↦ none
          | some (i, d) ↦ some (i, some d)
        ])
          ≡ some (n, t)
        → (d : R.State) × (r ≡ some (n, d)) × (t ≡ some d)
    added_some none t n e = cc
    added_some (some (i, d)) t n e = let same : i ≡ n = cc in (d, ap (λ j. some (j, d)) same, cc)

    added :
        (k : String) (h : Handler) (s t : Option R.State) (n m : ℕ)
        → (optional R).add k h s ≡ some (n, t)
        → (optional R).held t m ≡ (if eqb m n then some (k, h) else (optional R).held s m)
    added k h none t n m e = cc
    added k h (some c) t n m e =
        let r = added_some (R.add k h c) t n e in
        ap (λ s. (optional R).held s m) r.2 ∙ law.add_held k h c r.0 n m r.1

    removed :
        (s : Option R.State) (n m : ℕ)
        → (optional R).held ((optional R).remove n s) m
          ≡ (if eqb m n then none else (optional R).held s m)
    removed none n m = ground arith
    removed (some c) n m = law.remove_held c n m
