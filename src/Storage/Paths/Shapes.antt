-- ===== src/Storage/Paths/Shapes.antt =====
-- What filepath.Clean leaves: `..` only at the front of a relative path.
use flagbase.Prelude.{
  ℕ, Bool, true, false, ◌||◌, ◌≡◌, ◌≢◌, refl, ap, ◌⊎◌, inl, inr, List, [], ◌∷◌, All, eqb, arith,
  Bool-cases,
}
use flagbase.Text.{same_codes, cons_first, split}
use flagbase.Text.Laws.{same_codes_iff}
use flagbase.Storage.Paths.{Segment, dot, dotdot, pop, push_segment, clean_onto, reverse_onto}

abbrev pub IsSlashFree : Segment → Type 0
IsSlashFree s = All (λ c. c ≢ b'/') s

-- No segment goes up.
abbrev pub NoUp : List Segment → Type 0
NoUp st = All (λ s. s ≢ dotdot) st

cons_first-IsSlashFree :
    (c : ℕ) (ps : List Segment) → c ≢ b'/' → All IsSlashFree ps → All IsSlashFree (cons_first c ps)
cons_first-IsSlashFree c [] n h = ((n, tt), tt)
cons_first-IsSlashFree c (p ∷ ps) n (h, k) = ((n, h), k)

pub split-IsSlashFree : (s : List ℕ) → All IsSlashFree (split b'/' s)
unfolding split
split-IsSlashFree [] = (tt, tt)
split-IsSlashFree (c ∷ s) = elim (Bool-cases (eqb c b'/')) [
  | inl e ↦ rw e (tt, split-IsSlashFree s)
  | inr e ↦
      let n : c ≢ b'/' = ground arith in
      rw e (cons_first-IsSlashFree c (split b'/' s) n (split-IsSlashFree s))
]

module _ (P : Segment → Type 0) (up : P dotdot) where
  popped-All : (r : Bool) (st : List Segment) → All P st → All P (pop r st)
  popped-All true [] h = tt
  popped-All false [] h = (up, tt)
  popped-All r (t ∷ st) (q, h) = elim (Bool-cases (same_codes t dotdot)) [
    | inl e ↦ rw (e, pop) (up, (q, h))
    | inr e ↦ rw (e, pop) h
  ]

  push-All :
      (r : Bool) (st : List Segment) (s : Segment) → All P st → P s → All P (push_segment r st s)
  push-All r st s h k = elim (Bool-cases (same_codes s [] || same_codes s dot)) [
    | inl e ↦ rw (e, push_segment) h
    | inr e ↦ elim (Bool-cases (same_codes s dotdot)) [
      | inl f ↦ rw (e, push_segment) (rw f (popped-All r st h))
      | inr f ↦ rw (e, push_segment) (rw f (k, h))
    ]
  ]

  pub clean_onto-All :
      (r : Bool) (st ss : List Segment) → All P st → All P ss → All P (clean_onto r st ss)
  clean_onto-All r st [] h k = h
  clean_onto-All r st (s ∷ ss) h (p, k) =
      clean_onto-All r (push_segment r st s) ss (push-All r st s h p) k

-- Below a segment `..` there is nothing but such.
abbrev pub Shape : List Segment → Type 0
Shape [] = Unit
Shape (s ∷ st) = ((s ≢ dotdot) × Shape st) ⊎ ((s ≡ dotdot) × All (λ t. t ≡ dotdot) st)

Shape-up : (st : List Segment) → All (λ t. t ≡ dotdot) st → Shape st
Shape-up [] h = tt
Shape-up (s ∷ st) (e, h) = inr (e, h)

up-Shape :
    (s : Segment) (st : List Segment) → s ≡ dotdot → Shape (s ∷ st) → All (λ t. t ≡ dotdot) st
up-Shape s st e (inl (n, h)) = absurd (n e)
up-Shape s st e (inr (q, h)) = h

plain-Shape : (s : Segment) (st : List Segment) → s ≢ dotdot → Shape (s ∷ st) → Shape st
plain-Shape s st n (inl (m, h)) = h
plain-Shape s st n (inr (q, h)) = absurd (n q)

pub not_up : (s : Segment) → same_codes s dotdot ≡ false → s ≢ dotdot
not_up s f q = let t : same_codes s dotdot ≡ true = (same_codes_iff s dotdot).1 q in cc

pop-Shape : (r : Bool) (st : List Segment) → Shape st → Shape (pop r st)
pop-Shape true [] h = tt
pop-Shape false [] h = inr (refl, tt)
pop-Shape r (t ∷ st) h = elim (Bool-cases (same_codes t dotdot)) [
  | inl e ↦
      let q : t ≡ dotdot = (same_codes_iff t dotdot).0 e in
      rw (e, pop) (inr (refl, (q, up-Shape t st q h)))
  | inr e ↦ let n : t ≢ dotdot = not_up t e in rw (e, pop) (plain-Shape t st n h)
]

push-Shape : (r : Bool) (st : List Segment) (s : Segment) → Shape st → Shape (push_segment r st s)
push-Shape r st s h = elim (Bool-cases (same_codes s [] || same_codes s dot)) [
  | inl e ↦ rw (e, push_segment) h
  | inr e ↦ elim (Bool-cases (same_codes s dotdot)) [
    | inl f ↦ rw (e, push_segment) (rw f (pop-Shape r st h))
    | inr f ↦ let n : s ≢ dotdot = not_up s f in rw (e, push_segment) (rw f (inl (n, h)))
  ]
]

pub clean_onto-Shape : (r : Bool) (st ss : List Segment) → Shape st → Shape (clean_onto r st ss)
clean_onto-Shape r st [] h = h
clean_onto-Shape r st (s ∷ ss) h = clean_onto-Shape r (push_segment r st s) ss (push-Shape r st s h)

-- A stack of this shape either goes up nowhere, or its text starts by going up.
pub up_first :
    (st acc : List Segment)
    → Shape st
    → NoUp st ⊎ ((rest : List Segment) × (reverse_onto st acc ≡ dotdot ∷ rest))
up_first [] acc h = inl tt
up_first (s ∷ st) acc (inl (n, h)) = elim (up_first st (s ∷ acc) h) [
  | inl k ↦ inl (n, k)
  | inr k ↦ inr k
]
up_first (s ∷ []) acc (inr (q, h)) = inr (acc, ap (λ x. x ∷ acc) q)
up_first (s ∷ t ∷ st) acc (inr (q, (e, h))) = elim (up_first (t ∷ st) (s ∷ acc) (inr (e, h))) [
  | inl k ↦ absurd (k.0 e)
  | inr k ↦ inr k
]

-- A rooted path goes up nowhere.
pop-NoUp : (st : List Segment) → NoUp st → NoUp (pop true st)
pop-NoUp [] h = tt
pop-NoUp (t ∷ st) (n, h) = elim (Bool-cases (same_codes t dotdot)) [
  | inl e ↦ absurd (n ((same_codes_iff t dotdot).0 e))
  | inr e ↦ rw (e, pop) h
]

push-NoUp : (st : List Segment) (s : Segment) → NoUp st → NoUp (push_segment true st s)
push-NoUp st s h = elim (Bool-cases (same_codes s [] || same_codes s dot)) [
  | inl e ↦ rw (e, push_segment) h
  | inr e ↦ elim (Bool-cases (same_codes s dotdot)) [
    | inl f ↦ rw (e, push_segment) (rw f (pop-NoUp st h))
    | inr f ↦ let n : s ≢ dotdot = not_up s f in rw (e, push_segment) (rw f (n, h))
  ]
]

pub clean_onto-NoUp : (st ss : List Segment) → NoUp st → NoUp (clean_onto true st ss)
clean_onto-NoUp st [] h = h
clean_onto-NoUp st (s ∷ ss) h = clean_onto-NoUp (push_segment true st s) ss (push-NoUp st s h)
