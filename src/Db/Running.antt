-- ===== src/Db/Running.antt =====
-- What single steps give, run from a session.
use flagbase.Prelude.{◌≡◌, refl, ◌⊎◌, inl, inr, List, [], ◌∷◌, Bool, true, false}
use flagbase.Db.{driver, ok, err, Session, statement, query}

-- A query fails, or gives what it reads; the state stays.
pub query_cases :
    {T A : Type 0} (f : T → A) (s : Session T)
    → ((left : Session T) × (query f s ≡ (err driver, left)) × (left.state ≡ s.state))
      ⊎ ((left : Session T) × (query f s ≡ (ok (f s.state), left)) × (left.state ≡ s.state))
unfolding statement
query_cases {T} f s = go s.faults refl
  where
    go :
        (fs : List Bool)
        → s.faults ≡ fs
        → ((left : Session T) × (query f s ≡ (err driver, left)) × (left.state ≡ s.state))
          ⊎ ((left : Session T) × (query f s ≡ (ok (f s.state), left)) × (left.state ≡ s.state))
    go [] e = inr (s, rw (e, query) refl, refl)
    go (true ∷ fs) e = inl (record s { faults = fs }, rw (e, query) refl, refl)
    go (false ∷ fs) e = inr (record s { faults = fs }, rw (e, query) refl, refl)

-- Where no call fails, a query gives what it reads.
pub query_calm :
    {T A : Type 0} (f : T → A) (s : Session T) → s.faults ≡ [] → query f s ≡ (ok (f s.state), s)
unfolding statement
query_calm f s h = rw (h, query) refl
