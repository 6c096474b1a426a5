-- ===== src/Sorting/Counting.antt =====
-- Counting the items that pass a test.
use flagbase.Prelude.{
  ◌+◌, ◌≤◌, Bool, true, false, ◌&&◌, ◌≡◌, refl, List, [], ◌∷◌, ◌++◌, arith, keep, update_where, any,
  All, if◌then◌else◌, Bool-cases, inl, inr, Distinct, All-imp,
}
use flagbase.Sorting.{count}

module _ {A : Type 0} where
  pub count-keep : (p q : A → Bool) (xs : List A) → count p (keep q xs) ≡ count (λ x. p x && q x) xs
  count-keep p q [] = refl
  count-keep p q (x ∷ xs) = ground (arith, count-keep p q xs)

  pub count-append :
      (p : A → Bool) (xs : List A) (y : A)
      → count p (xs ++ y ∷ []) ≡ count p xs + (if p y then 1 else 0)
  count-append p [] y = ground arith
  count-append p (x ∷ xs) y = ground (arith, count-append p xs y)

  -- Changing items that neither pass before nor after.
  pub count-update_where :
      (p q : A → Bool) (f : A → A) (xs : List A)
      → ((x : A) → q x ≡ true → p (f x) ≡ p x)
      → count p (update_where q f xs) ≡ count p xs
  count-update_where p q f [] h = refl
  count-update_where p q f (x ∷ xs) h = ground (arith, h x, count-update_where p q f xs h)

  pub count-none : (p : A → Bool) (xs : List A) → All (λ x. p x ≡ false) xs → count p xs ≡ 0
  count-none p [] h = refl
  count-none p (x ∷ xs) (e, h) = ground (arith, count-none p xs h)

  pub count-any : (p : A → Bool) (xs : List A) → any p xs ≡ true → 1 ≤ count p xs
  count-any p [] h = absurd (cc)
  count-any p (x ∷ xs) h = ground (arith, count-any p xs)

  -- At most one item passes, if any two that pass are the same and no two are.
  pub count-Distinct :
      (same : A → A → Bool) (p : A → Bool) (xs : List A)
      → ((x y : A) → p x ≡ true → p y ≡ true → same x y ≡ true)
      → Distinct same xs
      → count p xs ≤ 1
  count-Distinct same p [] h d = omega arith
  count-Distinct same p (x ∷ xs) h (q, d) = elim (Bool-cases (p x)) [
    | inl e ↦
        let others : All (λ y. p y ≡ false) xs =
          All-imp (λ y. same x y ≡ false) (λ y. p y ≡ false) xs (λ y r. ground (arith, h x y)) q in
        ground (arith, count-none p xs others)
    | inr e ↦ ground (arith, count-Distinct same p xs h d)
  ]

  -- Two tests that agree count alike.
  pub count-ext : (p q : A → Bool) (xs : List A) → ((x : A) → p x ≡ q x) → count p xs ≡ count q xs
  count-ext p q [] h = refl
  count-ext p q (x ∷ xs) h = ground (arith, h x, count-ext p q xs h)

  -- Two tests that exclude each other and imply a third.
  pub count-add-le :
      (p q r : A → Bool) (xs : List A)
      → ((x : A) → p x ≡ true → (r x ≡ true) × (q x ≡ false))
      → ((x : A) → q x ≡ true → r x ≡ true)
      → count p xs + count q xs ≤ count r xs
  count-add-le p q r [] h k = omega arith
  count-add-le p q r (x ∷ xs) h k = ground (arith, h x, k x, count-add-le p q r xs h k)

  pub All-count : (p : A → Bool) (xs : List A) → count p xs ≡ 0 → All (λ x. p x ≡ false) xs
  All-count p [] h = tt
  All-count p (x ∷ xs) h = (ground arith, All-count p xs (ground arith))
