-- ===== src/Ids/Laws.antt =====
-- Identifiers: what newID may change, and when two of them are equal.
use flagbase.Prelude.{
  List, [], ◌∷◌, ℕ, Bool, Option, none, some, String, ◌≡◌, refl, ◌==◌, Bool-cases, inl, inr,
}
use flagbase.Db.Ensures.{Ensures, Holds, by_pure, by_draw}
use flagbase.Db.{Error, entropy, Op, draw, ◌>>=◌}
use flagbase.Ids.{encode_to_string, new_id, id_or_new}

-- Identifiers come from the random bytes alone: the state stays.
pub new_id-same : {T : Type 0} (t : T) → Ensures t new_id (λ _ u. u ≡ t) (λ _ u. u ≡ t)
unfolding new_id
new_id-same t = by_draw refl λ b. by_pure _ refl

module _ {T A : Type 0} {t : T} {Q : A → T → Type 0} {E : Error → T → Type 0}
    (k : String → Op T A) where
  -- A new identifier is the text of the bytes that are drawn.
  pub by_new_id :
      E entropy t
      → ((b : List ℕ) → Ensures t (k (encode_to_string b)) Q E)
      → Ensures t (new_id >>= k) Q E
  unfolding new_id draw
  by_new_id bad good = record { at = λ f d. go f d }
    where
      go :
          (f : List Bool) (d : List (Option (List ℕ)))
          → Holds Q E ((new_id >>= k) (record { state = t; faults = f; draws = d }))
      go f [] = bad
      go f (none ∷ d) = bad
      go f (some b ∷ d) = (good b).at f d

pub id_or_new-same :
    {T : Type 0} (id : String) (t : T) → Ensures t (id_or_new id) (λ _ u. u ≡ t) (λ _ u. u ≡ t)
unfolding id_or_new
id_or_new-same id t = elim (Bool-cases (id == "")) [
  | inl e ↦ rw e (new_id-same t)
  | inr e ↦ rw e (by_pure id refl)
]
