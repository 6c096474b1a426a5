-- ===== src/Storage/Paths/Within.antt =====
-- A path that goes up nowhere stays where it is put.
use flagbase.Prelude.{
  ℕ, Bool, true, false, ◌||◌, ◌≡◌, ◌≢◌, refl, sym, ap, ◌∙◌, inl, inr, List, [], ◌∷◌, ◌++◌, All, eqb,
  arith, Bool-cases, if◌then◌else◌, subst,
}
use mathlib.Core.List.{append_assoc}
use flagbase.Text.{cons_first, same_codes, split, join, has_prefix}
use flagbase.Text.Laws.{same_codes_iff, split-join}
use flagbase.Storage.Paths.{
  Segment, dot, dotdot, CleanPath, push_segment, clean_onto, is_rooted, clean, reverse_onto,
  in_order, relative, text_of,
}
use flagbase.Storage.Paths.Shapes.{
  IsSlashFree, NoUp, split-IsSlashFree, clean_onto-All, clean_onto-Shape, clean_onto-NoUp, up_first,
  Shape,
}

split-some : (s : List ℕ) → split b'/' s ≢ []
unfolding split
split-some [] e = cc
split-some (c ∷ s) e = elim (Bool-cases (eqb c b'/')) [
  | inl q ↦ let no : ◌≡◌ {A = List Segment} ([] ∷ split b'/' s) [] = rw q at e in cc
  | inr q ↦ consed (split b'/' s) (rw q at e)
]
  where
    consed : (ps : List Segment) → cons_first c ps ≡ [] → ⊥
    consed [] h = cc
    consed (p ∷ ps) h = cc

cons_first-append :
    (c : ℕ) (xs ys : List Segment) → xs ≢ [] → cons_first c (xs ++ ys) ≡ cons_first c xs ++ ys
cons_first-append c [] ys n = absurd (n refl)
cons_first-append c (p ∷ ps) ys n = refl

-- The text splits at its separators, wherever they are.
split-append_any : (a b : List ℕ) → split b'/' (a ++ (b'/' ∷ b)) ≡ split b'/' a ++ split b'/' b
unfolding split
split-append_any [] b = ground arith
split-append_any (c ∷ a) b = elim (Bool-cases (eqb c b'/')) [
  | inl e ↦ rw e (ap (λ l. [] ∷ l) (split-append_any a b))
  | inr e ↦ rw e (
      ap (cons_first c) (split-append_any a b)
      ∙ cons_first-append c (split b'/' a) (split b'/' b) (split-some a))
]

clean_onto-append :
    (r : Bool) (st xs bs : List Segment)
    → clean_onto r st (xs ++ bs) ≡ clean_onto r (clean_onto r st xs) bs
clean_onto-append r st [] bs = refl
clean_onto-append r st (a ∷ xs) bs = clean_onto-append r (push_segment r st a) xs bs

-- Segments that do not go up only add to the path.
pub clean_onto-adds :
    (r : Bool) (st ss : List Segment)
    → NoUp ss
    → (more : List Segment) × (clean_onto r st ss ≡ more ++ st)
clean_onto-adds r st [] h = ([], refl)
clean_onto-adds r st (s ∷ ss) (n, h) = elim (Bool-cases (same_codes s [] || same_codes s dot)) [
  | inl e ↦
      let k = clean_onto-adds r st ss h in
      (k.0, ap (λ x. clean_onto r x ss) (rw (e, push_segment) refl) ∙ k.1)
  | inr e ↦
      let k = clean_onto-adds r (s ∷ st) ss h in
      let f : same_codes s dotdot ≡ false = ground (arith, same_codes_iff s dotdot) in
      (
        k.0 ++ s ∷ [],
        ap (λ x. clean_onto r x ss) (rw (e, push_segment) (rw f refl))
            ∙ (k.1 ∙ sym (append_assoc k.0 (s ∷ []) st)),
      )
]

-- The path `q` is `p` or lies below it.
pub record IsWithin (p q : CleanPath) : Type 0 where
  pub rooted : q.rooted ≡ p.rooted
  pub more : List Segment
  pub below : q.stack ≡ more ++ p.stack

is_rooted-append : (base rest : List ℕ) → base ≢ [] → is_rooted (base ++ rest) ≡ is_rooted base
is_rooted-append [] rest n = absurd (n refl)
is_rooted-append (c ∷ base) rest n = refl

-- What is joined to a directory and goes up nowhere lies below the directory.
pub clean-IsWithin :
    (base rest : List ℕ)
    → base ≢ []
    → NoUp (split b'/' rest)
    → IsWithin (clean base) (clean (base ++ (b'/' ∷ rest)))
unfolding clean
clean-IsWithin base rest n h =
    let same : is_rooted (base ++ (b'/' ∷ rest)) ≡ is_rooted base =
      is_rooted-append base (b'/' ∷ rest) n in
    let r : Bool = is_rooted base in
    let k = clean_onto-adds r (clean_onto r [] (split b'/' base)) (split b'/' rest) h in
    record {
      rooted = same;
      more = k.0;
      below =
          ap (λ b. clean_onto b [] (split b'/' (base ++ (b'/' ∷ rest)))) same
          ∙ (ap (clean_onto r []) (split-append_any base rest)
              ∙ (clean_onto-append r [] (split b'/' base) (split b'/' rest) ∙ k.1));
    }

All-reverse :
    (P : Segment → Type 0) (st acc : List Segment)
    → All P st
    → All P acc
    → All P (reverse_onto st acc)
All-reverse P [] acc h k = k
All-reverse P (s ∷ st) acc (p, h) k = All-reverse P st (s ∷ acc) h (p, k)

dot_plain : dot ≢ dotdot
dot_plain = ground arith

nil_plain : [] ≢ dotdot
nil_plain = ground arith

-- The text of segments that go up nowhere splits into such.
join-NoUp : (ps : List Segment) → All IsSlashFree ps → NoUp ps → NoUp (split b'/' (join b'/' ps))
unfolding split
join-NoUp [] h k = (nil_plain, tt)
join-NoUp (p ∷ ps) h k = subst NoUp (sym (split-join b'/' p ps h)) k

dotdot-IsSlashFree : IsSlashFree dotdot
dotdot-IsSlashFree = ground arith

first-prefix : (ps : List Segment) → has_prefix (join b'/' (dotdot ∷ ps)) dotdot ≡ true
unfolding has_prefix
first-prefix [] = refl
first-prefix (p ∷ ps) = refl

relative-NoUp : (st : List Segment) → All IsSlashFree st → NoUp st → NoUp (split b'/' (relative st))
unfolding relative split
relative-NoUp [] h k = (dot_plain, tt)
relative-NoUp (s ∷ st) h k =
    join-NoUp (in_order (s ∷ st)) (All-reverse IsSlashFree (s ∷ st) [] h tt)
      (All-reverse (λ x. x ≢ dotdot) (s ∷ st) [] k tt)

rooted-NoUp :
    (st : List Segment)
    → All IsSlashFree st
    → NoUp st
    → NoUp (split b'/' (b'/' ∷ join b'/' (in_order st)))
unfolding split
rooted-NoUp st h k = (
  nil_plain,
  join-NoUp (in_order st) (All-reverse IsSlashFree st [] h tt)
      (All-reverse (λ x. x ≢ dotdot) st [] k tt),
)

starts :
    (s : Segment) (st rest : List Segment)
    → in_order (s ∷ st) ≡ dotdot ∷ rest
    → has_prefix (relative (s ∷ st)) dotdot ≡ true
unfolding relative
starts s st rest e = ap (λ l. has_prefix (join b'/' l) dotdot) e ∙ first-prefix rest

-- A relative path whose text does not start with two dots goes up nowhere.
guarded_relative :
    (st : List Segment)
    → All IsSlashFree st
    → Shape st
    → has_prefix (relative st) dotdot ≡ false
    → NoUp (split b'/' (relative st))
guarded_relative [] h f g = relative-NoUp [] h tt
guarded_relative (s ∷ st) h f g = elim (up_first (s ∷ st) [] f) [
  | inl k ↦ relative-NoUp (s ∷ st) h k
  | inr (rest, e) ↦ absurd (contradiction rest e g)
]
  where
    contradiction :
        (rest : List Segment)
        → in_order (s ∷ st) ≡ dotdot ∷ rest
        → has_prefix (relative (s ∷ st)) dotdot ≡ false
        → ⊥
    contradiction rest e g =
        let up : has_prefix (relative (s ∷ st)) dotdot ≡ true = starts s st rest e in cc

-- The cleaned text of a name that passes the test for two dots goes up nowhere.
pub guarded-NoUp :
    (name : List ℕ)
    → has_prefix (text_of (clean name)) dotdot ≡ false
    → NoUp (split b'/' (text_of (clean name)))
unfolding text_of clean
guarded-NoUp name g = go (is_rooted name) refl g
  where
    st : Bool → List Segment
    st r = clean_onto r [] (split b'/' name)

    free : (r : Bool) → All IsSlashFree (st r)
    free r =
        clean_onto-All IsSlashFree dotdot-IsSlashFree r [] (split b'/' name) tt
          (split-IsSlashFree name)

    go :
        (r : Bool)
        → is_rooted name ≡ r
        → has_prefix (if r then b'/' ∷ join b'/' (in_order (st r)) else relative (st r)) dotdot
          ≡ false
        → NoUp (split b'/' (if r then b'/' ∷ join b'/' (in_order (st r)) else relative (st r)))
    go true e g = rooted-NoUp (st true) (free true) (clean_onto-NoUp [] (split b'/' name) tt)
    go false e g =
        guarded_relative (st false) (free false) (clean_onto-Shape false [] (split b'/' name) tt) g
