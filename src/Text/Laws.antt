-- ===== src/Text/Laws.antt =====
-- What the text functions compute: `contains` finds infixes, and `split` undoes joining.
use flagbase.Prelude.{
  eqb, Bool-cases, inl, inr, String, ℕ, ◌≡◌, ◌≢◌, refl, ap, ◌∙◌, ◌↔◌, true, List, [], ◌∷◌, ◌++◌,
  arith, All, inl, inr, Bool-cases, drop, length,
}
use Prim.Native.Char.{code}
use text.Mathlib.TextEquality.{Char-path}
use flagbase.Text.{codes, has_prefix, contains, split, same_codes, trim_prefix, join}

pub same_codes_iff : (s t : List ℕ) → (same_codes s t ≡ true) ↔ (s ≡ t)
same_codes_iff [] [] = ground arith
same_codes_iff [] (y ∷ ys) = ground arith
same_codes_iff (x ∷ xs) [] = ground arith
same_codes_iff (x ∷ xs) (y ∷ ys) = ground (arith, same_codes_iff xs ys)

-- Texts with the same code points are the same.
pub codes-injective : (s t : String) → codes s ≡ codes t → s ≡ t
codes-injective String.[] String.[] h = refl
codes-injective String.[] (String.◌∷◌ d t) h = cc
codes-injective (String.◌∷◌ c s) String.[] h = cc
codes-injective (String.◌∷◌ c s) (String.◌∷◌ d t) h =
    let first : code c ≡ code d = cc in
    let others : codes s ≡ codes t = cc in
    λ i. String.◌∷◌ (Char-path c d first i) (codes-injective s t others i)

has_prefix_sound : (s p : List ℕ) → has_prefix s p ≡ true → (b : List ℕ) × (s ≡ p ++ b)
unfolding has_prefix
has_prefix_sound s [] h = (s, refl)
has_prefix_sound [] (x ∷ p) h = absurd (cc)
has_prefix_sound (c ∷ s) (x ∷ p) h =
    let (b, e) = has_prefix_sound s p (ground arith) in (b, ground (arith, e))

pub has_prefix-append : (p b : List ℕ) → has_prefix (p ++ b) p ≡ true
unfolding has_prefix
has_prefix-append [] b = refl
has_prefix-append (x ∷ p) b = ground (arith, has_prefix-append p b)

-- `contains` holds exactly if the text is something, the other text, and something.
pub contains_sound :
    (s sub : List ℕ) → contains s sub ≡ true → (a b : List ℕ) × (s ≡ a ++ (sub ++ b))
unfolding contains
contains_sound [] sub h = let (b, e) = has_prefix_sound [] sub h in ([], b, e)
contains_sound (c ∷ s) sub h = elim (Bool-cases (has_prefix (c ∷ s) sub)) [
  | inl yes_ ↦ let (b, e) = has_prefix_sound (c ∷ s) sub yes_ in ([], b, e)
  | inr no_ ↦ let (a, b, e) = contains_sound s sub (ground arith) in (c ∷ a, b, ap (λ l. c ∷ l) e)
]

pub contains-append : (a sub b : List ℕ) → contains (a ++ (sub ++ b)) sub ≡ true
unfolding contains
contains-append [] sub b = go (sub ++ b) (has_prefix-append sub b)
  where
    go : (l : List ℕ) → has_prefix l sub ≡ true → contains l sub ≡ true
    go [] h = h
    go (c ∷ l) h = ground arith
contains-append (c ∷ a) sub b = ground (arith, contains-append a sub b)

split-part : (sep : ℕ) (p : List ℕ) → All (λ c. c ≢ sep) p → split sep p ≡ p ∷ []
unfolding split
split-part sep [] h = refl
split-part sep (c ∷ p) (n, h) = ground (arith, split-part sep p h)

split-append :
    (sep : ℕ) (p rest : List ℕ)
    → All (λ c. c ≢ sep) p
    → split sep (p ++ (sep ∷ rest)) ≡ p ∷ split sep rest
unfolding split
split-append sep [] rest h = ground arith
split-append sep (c ∷ p) rest (n, h) = ground (arith, split-append sep p rest h)

-- Splitting gives the parts that were joined, if none holds the separator.
pub split-join :
    (sep : ℕ) (p : List ℕ) (ps : List (List ℕ))
    → All (All (λ c. c ≢ sep)) (p ∷ ps)
    → split sep (join sep (p ∷ ps)) ≡ p ∷ ps
split-join sep p [] (h, _) = split-part sep p h
split-join sep p (q ∷ ps) (h, k) =
    split-append sep p (join sep (q ∷ ps)) h ∙ ap (λ l. p ∷ l) (split-join sep q ps k)

-- What splitting gives: at least one part, none with the separator, and joined they are the text.
pub split-parts :
    (sep : ℕ) (s : List ℕ)
    → (p : List ℕ) × (ps : List (List ℕ)) × (split sep s ≡ p ∷ ps)
      × (join sep (p ∷ ps) ≡ s)
      × All (All (λ c. c ≢ sep)) (p ∷ ps)
unfolding split
split-parts sep [] = ([], [], refl, refl, (tt, tt))
split-parts sep (c ∷ cs) =
    let (p, ps, e, j, h) = split-parts sep cs in
    elim (Bool-cases (eqb c sep)) [
      | inl b ↦
          let same : sep ≡ c = ground arith in
          ([], p ∷ ps, rw (b, e) refl, (λ i. same i ∷ j i), (tt, h))
      | inr b ↦ (
        c ∷ p,
        ps,
        rw (b, e) refl,
        join-cons c p ps ∙ ap (λ l. c ∷ l) j,
        ((ground arith, h.0), h.1),
      )
    ]
  where
    join-cons :
        (c : ℕ) (p : List ℕ) (ps : List (List ℕ)) → join sep ((c ∷ p) ∷ ps) ≡ c ∷ join sep (p ∷ ps)
    join-cons c p [] = refl
    join-cons c p (q ∷ ps) = refl

pub drop-append : (p s : List ℕ) → drop (length p) (p ++ s) ≡ s
drop-append [] s = refl
drop-append (c ∷ p) s = drop-append p s

pub trim_prefix-append : (p s : List ℕ) → trim_prefix (p ++ s) p ≡ s
unfolding trim_prefix
trim_prefix-append p s = rw (has_prefix-append p s) (drop-append p s)
