-- ===== src/Prelude/Rows.antt =====
-- Lists of rows: tests over them, uniqueness, and the effect of inserting, changing and deleting.
use mathlib.Core.Path.{◌≡◌, refl, ◌∙◌}
use mathlib.Core.Logic.{◌⊎◌, inl, inr}
use mathlib.Core.Bool.{Bool, true, false, ◌||◌}
use mathlib.Core.List.{List, [], ◌∷◌, ◌++◌}
use native.Mathlib.Omega.{arith}
use flagbase.Prelude.Tests.{if◌then◌else◌}
use flagbase.Prelude.Lists.{any, keep, update_where, All}

module _ {A : Type 0} where
  -- `same x y` for no row `y` behind `x`.
  abbrev pub Distinct : (A → A → Bool) → List A → Type 0
  Distinct same [] = Unit
  Distinct same (x ∷ xs) = All (λ y. same x y ≡ false) xs × Distinct same xs

  pub any-append : (p : A → Bool) (xs : List A) (y : A) → any p (xs ++ y ∷ []) ≡ any p xs || p y
  any-append p [] y = ground arith
  any-append p (x ∷ xs) y = ground (arith, any-append p xs y)

  pub any-update_where :
      (q p : A → Bool) (f : A → A) (xs : List A)
      → ((x : A) → q (f x) ≡ q x)
      → any q (update_where p f xs) ≡ any q xs
  any-update_where q p f [] h = refl
  any-update_where q p f (x ∷ xs) h = ground (arith, h x, any-update_where q p f xs h)

  pub any-keep :
      (q p : A → Bool) (xs : List A)
      → ((x : A) → q x ≡ true → p x ≡ true)
      → any q (keep p xs) ≡ any q xs
  any-keep q p [] h = refl
  any-keep q p (x ∷ xs) h = ground (arith, h x, any-keep q p xs h)

  pub any-keep_none :
      (q p : A → Bool) (xs : List A)
      → ((x : A) → p x ≡ true → q x ≡ false)
      → any q (keep p xs) ≡ false
  any-keep_none q p [] h = refl
  any-keep_none q p (x ∷ xs) h = ground (arith, h x, any-keep_none q p xs h)

  pub any-or :
      (q p : A → Bool) (xs : List A)
      → any (λ x. q x || p x) xs ≡ false
      → (any q xs ≡ false) × (any p xs ≡ false)
  any-or q p [] h = (refl, refl)
  any-or q p (x ∷ xs) h = ground (arith, any-or q p xs)

module _ {A : Type 0} (P : A → Type 0) where
  pub All-append : (xs : List A) (y : A) → All P xs → P y → All P (xs ++ y ∷ [])
  All-append [] y h k = (k, tt)
  All-append (x ∷ xs) y (p, h) k = (p, All-append xs y h k)

  pub All-keep : (p : A → Bool) (xs : List A) → All P xs → All P (keep p xs)
  All-keep p [] h = tt
  All-keep p (x ∷ xs) (q, h) = go (p x) (All-keep p xs h)
    where
      go : (b : Bool) → All P (keep p xs) → All P (if b then x ∷ keep p xs else keep p xs)
      go true ih = (q, ih)
      go false ih = ih

  pub All-update_where :
      (p : A → Bool) (f : A → A) (xs : List A)
      → ((x : A) → P x → P (f x))
      → All P xs
      → All P (update_where p f xs)
  All-update_where p f [] k h = tt
  All-update_where p f (x ∷ xs) k (q, h) = (go (p x), All-update_where p f xs k h)
    where
      go : (b : Bool) → P (if b then f x else x)
      go true = k x q
      go false = q

-- Some row of the list has the property.
abbrev pub Some : {A : Type 0} → (A → Type 0) → List A → Type 0
Some P [] = ⊥
Some P (x ∷ xs) = P x ⊎ Some P xs

module _ {A : Type 0} (P Q : A → Type 0) where
  pub All-imp : (xs : List A) → ((x : A) → P x → Q x) → All P xs → All Q xs
  All-imp [] k h = tt
  All-imp (x ∷ xs) k (p, h) = (k x p, All-imp xs k h)

  pub Some-imp : (xs : List A) → ((x : A) → P x → Q x) → Some P xs → Some Q xs
  Some-imp [] k h = absurd h
  Some-imp (x ∷ xs) k (inl p) = inl (k x p)
  Some-imp (x ∷ xs) k (inr h) = inr (Some-imp xs k h)

module _ {A : Type 0} (P Q : A → Type 0) (p : A → Bool) where
  -- What is kept also passed the test.
  pub All-keep_imp :
      (xs : List A) → ((x : A) → P x → p x ≡ true → Q x) → All P xs → All Q (keep p xs)
  All-keep_imp [] k h = tt
  All-keep_imp (x ∷ xs) k (q, h) = go (p x) refl (All-keep_imp xs k h)
    where
      go : (b : Bool) → p x ≡ b → All Q (keep p xs) → All Q (if b then x ∷ keep p xs else keep p xs)
      go true e ih = (k x q e, ih)
      go false e ih = ih

module _ {A : Type 0} (same : A → A → Bool) where
  pub Distinct-append :
      (xs : List A) (y : A)
      → Distinct same xs
      → any (λ x. same x y) xs ≡ false
      → Distinct same (xs ++ y ∷ [])
  Distinct-append [] y d h = (tt, tt)
  Distinct-append (x ∷ xs) y (p, d) h =
      (All-append _ xs y p (ground arith), Distinct-append xs y d (ground arith))

  pub Distinct-keep : (p : A → Bool) (xs : List A) → Distinct same xs → Distinct same (keep p xs)
  Distinct-keep p [] d = tt
  Distinct-keep p (x ∷ xs) (q, d) = go (p x) (Distinct-keep p xs d)
    where
      go :
          (b : Bool)
          → Distinct same (keep p xs)
          → Distinct same (if b then x ∷ keep p xs else keep p xs)
      go true ih = (All-keep _ p xs q, ih)
      go false ih = ih

  pub Distinct-update_where :
      (p : A → Bool) (f : A → A) (xs : List A)
      → ((x y : A) → same (f x) y ≡ same x y)
      → ((x y : A) → same x (f y) ≡ same x y)
      → Distinct same xs
      → Distinct same (update_where p f xs)
  Distinct-update_where p f [] l r d = tt
  Distinct-update_where p f (x ∷ xs) l r (q, d) = (
    All-update_where _ p f xs (λ y e. r' y ∙ e) (All-imp _ _ xs go q),
    Distinct-update_where p f xs l r d,
  )
    where
      x' : A
      x' = if p x then f x else x

      go : (y : A) → same x y ≡ false → same x' y ≡ false
      go y e = ground (arith, l x y, e)

      r' : (y : A) → same x' (f y) ≡ same x' y
      r' y = r x' y
