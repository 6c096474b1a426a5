-- ===== src/Sorting.antt =====
-- ORDER BY: the database returns the rows in an order of its choice that the sort keys allow.
pub mod Counting
pub mod Insertion
use flagbase.Prelude.{
  ℕ, ◌+◌, Bool, true, false, ◌≡◌, List, [], ◌∷◌, if◌then◌else◌, All, arith, leb, ◌⊎◌, String,
}
use flagbase.Text.{codes}

module _ {A : Type 0} where
  -- How many items pass a test.
  abbrev pub count : (A → Bool) → List A → ℕ
  count p [] = 0
  count p (x ∷ xs) = (if p x then 1 else 0) + count p xs

  abbrev pub IsSorted : (A → A → Bool) → List A → Type 0
  IsSorted le [] = Unit
  IsSorted le (x ∷ xs) = All (λ y. le x y ≡ true) xs × IsSorted le xs

  abbrev pub IsOrder : (A → A → Bool) → Type 0
  IsOrder le =
      ((a b : A) → (le a b ≡ true) ⊎ (le b a ≡ true))
      × ((a b c : A) → le a b ≡ true → le b c ≡ true → le a c ≡ true)

-- `sort_count` says that the result has each row as often as the table.
pub record Sorting : Type 1 where
  pub sort : (A : Type 0) → (A → A → Bool) → List A → List A
  pub sort_count :
      (A : Type 0) (le : A → A → Bool) (l : List A) (p : A → Bool)
      → count p (sort A le l) ≡ count p l
  pub sort_sorted :
      (A : Type 0) (le : A → A → Bool) → IsOrder le → (l : List A) → IsSorted le (sort A le l)

-- The binary collation: texts by their code points.
abbrev pub leb_codes : List ℕ → List ℕ → Bool
leb_codes [] t = true
leb_codes (c ∷ s) [] = false
leb_codes (c ∷ s) (d ∷ t) = if leb c d then if leb d c then leb_codes s t else true else false

abbrev pub leb_text : String → String → Bool
leb_text s t = leb_codes (codes s) (codes t)
