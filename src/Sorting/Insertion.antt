-- ===== src/Sorting/Insertion.antt =====
-- An order that a database may choose: insertion sort. It shows that `Sorting` can be met.
use flagbase.Prelude.{
  ◌+◌, Bool, true, false, ◌≡◌, refl, List, [], ◌∷◌, arith, if◌then◌else◌, All, All-imp,
}
use flagbase.Sorting.{Sorting, count, IsSorted, IsOrder}

module _ {A : Type 0} (le : A → A → Bool) where
  pub insert : A → List A → List A
  insert x [] = x ∷ []
  insert x (y ∷ ys) = let rest = insert x ys in if le x y then x ∷ y ∷ ys else y ∷ rest

  pub insertion_sort : List A → List A
  unfolding insert
  insertion_sort [] = []
  insertion_sort (x ∷ xs) = insert x (insertion_sort xs)

  insert-count :
      (p : A → Bool) (x : A) (l : List A)
      → count p (insert x l) ≡ (if p x then 1 else 0) + count p l
  unfolding insert
  insert-count p x [] = refl
  insert-count p x (y ∷ l) = ground (arith, insert-count p x l)

  pub sort-count : (p : A → Bool) (l : List A) → count p (insertion_sort l) ≡ count p l
  unfolding insertion_sort
  sort-count p [] = refl
  sort-count p (x ∷ l) = ground (arith, insert-count p x (insertion_sort l), sort-count p l)

  insert-All : (P : A → Type 0) (x : A) (l : List A) → P x → All P l → All P (insert x l)
  unfolding insert
  insert-All P x [] h k = (h, tt)
  insert-All P x (y ∷ l) h (q, k) = go (le x y) (insert-All P x l h k)
    where
      go : (b : Bool) → All P (insert x l) → All P (if b then x ∷ y ∷ l else y ∷ insert x l)
      go true ih = (h, (q, k))
      go false ih = (q, ih)

  insert-IsSorted : IsOrder le → (x : A) (l : List A) → IsSorted le l → IsSorted le (insert x l)
  unfolding insert
  insert-IsSorted o x [] s = (tt, tt)
  insert-IsSorted o x (y ∷ l) (below, s) = go (le x y) refl (insert-IsSorted o x l s)
    where
      go :
          (b : Bool)
          → le x y ≡ b
          → IsSorted le (insert x l)
          → IsSorted le (if b then x ∷ y ∷ l else y ∷ insert x l)
      go true e ih = ((e, All-imp _ _ l (λ z h. o.1 x y z e h) below), (below, s))
      go false e ih = (insert-All _ x l (ground (arith, o.0 x y)) below, ih)

  pub sort-IsSorted : IsOrder le → (l : List A) → IsSorted le (insertion_sort l)
  unfolding insertion_sort
  sort-IsSorted o [] = tt
  sort-IsSorted o (x ∷ l) = insert-IsSorted o x (insertion_sort l) (sort-IsSorted o l)

unfoldable pub insertion : Sorting
unfolding insertion_sort
insertion = record {
  sort = λ A le. insertion_sort le;
  sort_count = λ A le l p. sort-count le p l;
  sort_sorted = λ A le. sort-IsSorted le;
}
