-- ===== src/Storage/Removing.antt =====
-- What is left where a directory has been removed with all that is below it.
use flagbase.Prelude.{
  ℕ, Bool, true, false, not, ◌≡◌, refl, sym, ap, inl, inr, List, [], ◌∷◌, ◌++◌, keep, arith, Option,
  none, some, Bool-cases, subst, if◌then◌else◌,
}
use flagbase.Storage.Paths.{Segment, CleanPath}
use flagbase.Storage.Paths.Within.{IsWithin}
use flagbase.Storage.{same_stack, same_path, file_at, starts_with, is_below}
use flagbase.Storage.Files.{same_stack_iff, same_path_iff}

starts_with-more :
    (dir st : List Segment) → starts_with dir st ≡ true → (more : List Segment) × (st ≡ more ++ dir)
starts_with-more dir [] h = ([], sym ((same_stack_iff dir []).0 h))
starts_with-more dir (s ∷ st) h = elim (Bool-cases (same_stack dir (s ∷ st))) [
  | inl e ↦ ([], sym ((same_stack_iff dir (s ∷ st)).0 e))
  | inr e ↦ let k = starts_with-more dir st (rw e at h) in (s ∷ k.0, ap (λ l. s ∷ l) k.1)
]

starts_with-append : (dir more : List Segment) → starts_with dir (more ++ dir) ≡ true
starts_with-append [] [] = refl
starts_with-append (s ∷ dir) [] = ground (arith, same_stack_iff (s ∷ dir) (s ∷ dir))
starts_with-append dir (m ∷ more) = ground (arith, starts_with-append dir more)

-- The test of RemoveAll is the relation between paths.
pub is_below-IsWithin : (dir q : CleanPath) → is_below dir q ≡ true → IsWithin dir q
is_below-IsWithin dir q h =
    let k = starts_with-more dir.stack q.stack (ground arith) in
    record { rooted = ground arith; more = k.0; below = k.1 }

pub below_within : (dir q : CleanPath) → IsWithin dir q → is_below dir q ≡ true
below_within dir q w =
    let inside : starts_with dir.stack q.stack ≡ true =
      subst (λ st. starts_with dir.stack st ≡ true) (sym w.below)
        (starts_with-append dir.stack w.more) in
    let same : q.rooted ≡ dir.rooted = w.rooted in ground arith

if_none : (b : Bool) → ◌≡◌ {A = Option (List ℕ)} none (if b then none else none)
if_none true = refl
if_none false = refl

removed_first :
    (p_below q_below same : Bool) (dir q p : CleanPath) (c : List ℕ)
    (kept fs : List (CleanPath × List ℕ))
    → same ≡ same_path p q
    → file_at q kept ≡ (if q_below then none else file_at q fs)
    → (same ≡ true → p_below ≡ q_below)
    → file_at q (if not p_below then (p, c) ∷ kept else kept)
      ≡ (if q_below then none else if same then some c else file_at q fs)
removed_first true true true dir q p c kept fs s h e = h
removed_first true true false dir q p c kept fs s h e = h
removed_first true false true dir q p c kept fs s h e = absurd (ground (arith, e refl))
removed_first true false false dir q p c kept fs s h e = h
removed_first false true true dir q p c kept fs s h e = absurd (ground (arith, e refl))
removed_first false true false dir q p c kept fs s h e = rw (sym s) h
removed_first false false true dir q p c kept fs s h e = rw (sym s) refl
removed_first false false false dir q p c kept fs s h e = rw (sym s) h

-- A file below the directory is gone, and each other is as before.
pub file_at-remove_all :
    (dir q : CleanPath) (fs : List (CleanPath × List ℕ))
    → file_at q (keep (λ f. not (is_below dir f.0)) fs)
      ≡ (if is_below dir q then none else file_at q fs)
file_at-remove_all dir q [] = if_none (is_below dir q)
file_at-remove_all dir q ((p, c) ∷ fs) =
    let rest = file_at-remove_all dir q fs in
    removed_first (is_below dir p) (is_below dir q) (same_path p q) dir q p c _ fs refl rest
      (λ e. ap (is_below dir) ((same_path_iff p q).0 e))
