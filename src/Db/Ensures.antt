-- ===== src/Db/Ensures.antt =====
-- Symbolic execution: `Ensures t m Q E` says that `m`, run from the state `t` with whatever faults
-- and random bytes, either returns with `Q` or fails with `E`. One rule for each step.
use flagbase.Prelude.{◌≡◌, refl, subst, List, [], ◌∷◌, Bool, true, false, Option, none, some, ℕ}
use flagbase.Db.{
  Error, driver, entropy, Result, ok, err, Session, Op, after, ◌>>=◌, pure, raise, gets, lift,
  modify, require, settle, statement, draw, restored, calls_of, transaction, rename, renamed,
  ignored, ignore, own_error, unzoomed, zoom, handed, attempt, execute, query,
}

abbrev pub Holds :
    {T A : Type 0} → (A → T → Type 0) → (Error → T → Type 0) → Result A × Session T → Type 0
Holds Q E (ok a, s) = Q a s.state
Holds Q E (err e, s) = E e s.state

pub record Ensures {T A : Type 0} (t : T) (m : Op T A) (Q : A → T → Type 0) (E : Error → T → Type 0)
    : Type 0 where
  pub at :
      (faults : List Bool) (draws : List (Option (List ℕ)))
      → Holds Q E (m (record { state = t; faults = faults; draws = draws }))

module _ {T A : Type 0} {t : T} {Q : A → T → Type 0} {E : Error → T → Type 0} where
  pub by_pure : (a : A) → Q a t → Ensures t (pure a) Q E
  by_pure a h = record { at = λ f d. h }

  pub by_raise : (e : Error) → E e t → Ensures t (raise e) Q E
  by_raise e h = record { at = λ f d. h }

  pub by_consequence :
      {R : A → T → Type 0} {F : Error → T → Type 0} {m : Op T A}
      → Ensures t m R F
      → ((a : A) (u : T) → R a u → Q a u)
      → ((e : Error) (u : T) → F e u → E e u)
      → Ensures t m Q E
  by_consequence {R} {F} {m} h k l = record { at = λ f d. go (m _) (h.at f d) }
    where
      go : (r : Result A × Session T) → Holds R F r → Holds Q E r
      go (ok a, s) h = k a s.state h
      go (err e, s) h = l e s.state h

  module _ {B : Type 0} {k : B → Op T A} where
    pub by_bind :
        {m : Op T B} (R : B → T → Type 0)
        → Ensures t m R E
        → ((b : B) (u : T) → R b u → Ensures u (k b) Q E)
        → Ensures t (m >>= k) Q E
    by_bind {m} R h n = record { at = λ f d. go (m _) (h.at f d) }
      where
        go : (r : Result B × Session T) → Holds R E r → Holds Q E (after k r)
        go (ok b, s) h = (n b s.state h).at s.faults s.draws
        go (err e, s) h = h

    pub by_statement :
        (sql : T → Result (B × T))
        → E driver t
        → ((e : Error) → sql t ≡ err e → E e t)
        → ((b : B) (u : T) → sql t ≡ ok (b, u) → Ensures u (k b) Q E)
        → Ensures t (statement sql >>= k) Q E
    unfolding statement
    by_statement sql fault bad good = record { at = λ f d. go f d }
      where
        settled :
            (r : Result (B × T)) (f : List Bool) (d : List (Option (List ℕ)))
            → sql t ≡ r
            → Holds Q E (after k (settle (record { state = t; faults = f; draws = d }) r))
        settled (ok (b, u)) f d e = (good b u e).at f d
        settled (err x) f d e = bad x e

        go :
            (f : List Bool) (d : List (Option (List ℕ)))
            → Holds Q E ((statement sql >>= k) (record { state = t; faults = f; draws = d }))
        go [] d = settled (sql t) [] d refl
        go (true ∷ f) d = fault
        go (false ∷ f) d = settled (sql t) f d refl

  module _ {B : Type 0} (k : B → Op T A) where
    pub by_query :
        (f : T → B) → E driver t → Ensures t (k (f t)) Q E → Ensures t (query f >>= k) Q E
    unfolding statement
    by_query f fault h = record { at = λ fs d. go fs d }
      where
        go :
            (fs : List Bool) (d : List (Option (List ℕ)))
            → Holds Q E ((query f >>= k) (record { state = t; faults = fs; draws = d }))
        go [] d = h.at [] d
        go (true ∷ fs) d = fault
        go (false ∷ fs) d = h.at fs d

    pub by_gets : (f : T → B) → Ensures t (k (f t)) Q E → Ensures t (gets f >>= k) Q E
    by_gets f h = record { at = λ fs d. h.at fs d }

  pub by_draw :
      {k : List ℕ → Op T A}
      → E entropy t
      → ((b : List ℕ) → Ensures t (k b) Q E)
      → Ensures t (draw >>= k) Q E
  unfolding draw
  by_draw {k} none_left h = record { at = λ f d. go f d }
    where
      go :
          (f : List Bool) (d : List (Option (List ℕ)))
          → Holds Q E ((draw >>= k) (record { state = t; faults = f; draws = d }))
      go f [] = none_left
      go f (none ∷ d) = none_left
      go f (some b ∷ d) = (h b).at f d

module _ {T A : Type 0} {t : T} {Q : A → T → Type 0} {E : Error → T → Type 0}
    (k : Unit {0} → Op T A) where
  pub by_execute :
      (f : T → T) → E driver t → Ensures (f t) (k tt) Q E → Ensures t (execute f >>= k) Q E
  unfolding statement
  by_execute f fault h = record { at = λ fs d. go fs d }
    where
      go :
          (fs : List Bool) (d : List (Option (List ℕ)))
          → Holds Q E ((execute f >>= k) (record { state = t; faults = fs; draws = d }))
      go [] d = h.at [] d
      go (true ∷ fs) d = fault
      go (false ∷ fs) d = h.at fs d

  pub by_modify : (f : T → T) → Ensures (f t) (k tt) Q E → Ensures t (modify f >>= k) Q E
  by_modify f h = record { at = λ fs d. h.at fs d }

  pub by_require :
      (b : Bool) (e : Error)
      → (b ≡ true → Ensures t (k tt) Q E)
      → (b ≡ false → E e t)
      → Ensures t (require b e >>= k) Q E
  by_require true e h n = record { at = λ fs d. (h refl).at fs d }
  by_require false e h n = record { at = λ fs d. n refl }

module _ {T A : Type 0} {t : T} {Q : A → T → Type 0} {E : Error → T → Type 0} where
  -- Of a transaction that fails, at Begin, in the body or at Commit, nothing is left.
  pub by_transaction :
      {body : Op T A}
      → E driver t
      → Ensures t body Q (λ e _. E e t)
      → Ensures t (transaction body) Q E
  unfolding transaction
  by_transaction {body} fault h = record { at = λ f d. go (calls_of body _) (calls.at f d) }
    where
      calls : Ensures t (calls_of body) Q (λ e _. E e t)
      calls =
          by_execute _ (λ u. u) fault
            (by_bind Q h λ a u q. by_execute _ (λ v. v) fault (by_pure a q))

      go : (r : Result A × Session T) → Holds Q (λ e _. E e t) r → Holds Q E (restored t r)
      go (ok a, s) h = h
      go (err e, s) h = h

  -- The last step of a block.
  pub by_last : {m : Op T A} → Ensures t (m >>= pure) Q E → Ensures t m Q E
  by_last {m} h = record { at = λ f d. go (m _) (h.at f d) }
    where
      go : (r : Result A × Session T) → Holds Q E (after pure r) → Holds Q E r
      go (ok a, s) h = h
      go (err e, s) h = h

  pub last_statement :
      (sql : T → Result (A × T))
      → E driver t
      → ((e : Error) → sql t ≡ err e → E e t)
      → ((a : A) (u : T) → sql t ≡ ok (a, u) → Q a u)
      → Ensures t (statement sql) Q E
  last_statement sql fault bad good =
      by_last (by_statement sql fault bad λ a u e. by_pure a (good a u e))

  pub last_query : (f : T → A) → E driver t → Q (f t) t → Ensures t (query f) Q E
  last_query f fault h = by_last (by_query pure f fault (by_pure _ h))

module _ {T : Type 0} {t : T} {Q : Unit {0} → T → Type 0} {E : Error → T → Type 0} where
  pub last_execute : (f : T → T) → E driver t → Q tt (f t) → Ensures t (execute f) Q E
  last_execute f fault h = by_last (by_execute pure f fault (by_pure tt h))

  pub last_modify : (f : T → T) → Q tt (f t) → Ensures t (modify f) Q E
  last_modify f h = by_last (by_modify pure f (by_pure tt h))

module _ {T A : Type 0} {Q : A → T → Type 0} {E : Error → T → Type 0} {m : Op T A} where
  -- What a run from a session gives.
  pub on_ok : (s u : Session T) {a : A} → Ensures s.state m Q E → m s ≡ (ok a, u) → Q a u.state
  on_ok s u h e = subst (Holds Q E) e (h.at s.faults s.draws)

  pub on_err :
      (s u : Session T) {x : Error} → Ensures s.state m Q E → m s ≡ (err x, u) → E x u.state
  on_err s u h e = subst (Holds Q E) e (h.at s.faults s.draws)

module _ {T A B : Type 0} {t : T} {Q : A → T → Type 0} {E : Error → T → Type 0} where
  -- A value or an error that is computed without the state.
  pub by_lift :
      (k : B → Op T A) (r : Result B)
      → ((e : Error) → E e t)
      → ((b : B) → r ≡ ok b → Ensures t (k b) Q E)
      → Ensures t (lift r >>= k) Q E
  by_lift k (ok b) bad good = record { at = λ f d. (good b refl).at f d }
  by_lift k (err e) bad good = record { at = λ f d. bad e }

module _ {T A : Type 0} where
  -- A run of which nothing is said.
  pub anything : (t : T) (m : Op T A) → Ensures t m (λ _ _. Unit {0}) (λ _ _. Unit {0})
  anything t m = record { at = λ f d. go (m _) }
    where
      go : (r : Result A × Session T) → Holds (λ _ _. Unit {0}) (λ _ _. Unit {0}) r
      go (ok a, s) = tt
      go (err e, s) = tt

module _ {T A : Type 0} {t : T} {Q : A → T → Type 0} {E : Error → T → Type 0} where
  pub by_renamed :
      (e : Error) {m : Op T A}
      → Ensures t m Q (λ x u. E (own_error e x) u)
      → Ensures t (renamed e m) Q E
  by_renamed e {m} h = record { at = λ f d. go (m _) (h.at f d) }
    where
      go :
          (r : Result A × Session T)
          → Holds Q (λ x u. E (own_error e x) u) r
          → Holds Q E (rename e r)
      go (ok a, s) h = h
      go (err x, s) h = h

module _ {S T A : Type 0} (get : T → S) (set : S → T → T) {t : T} {Q : A → T → Type 0}
    {E : Error → T → Type 0} where
  pub by_zoom :
      {m : Op S A}
      → Ensures (get t) m (λ a s. Q a (set s t)) (λ e s. E e (set s t))
      → Ensures t (zoom get set m) Q E
  by_zoom {m} h = record { at = λ f d. go (m _) (h.at f d) }
    where
      go :
          (r : Result A × Session S)
          → Holds (λ a s. Q a (set s t)) (λ e s. E e (set s t)) r
          → Holds Q E (unzoomed set t r)
      go (ok a, s) h = h
      go (err e, s) h = h

module _ {T A B : Type 0} {t : T} {Q : B → T → Type 0} {E : Error → T → Type 0}
    (k : Result A → Op T B) where
  pub by_attempt :
      {m : Op T A} (R : A → T → Type 0) (F : Error → T → Type 0)
      → Ensures t m R F
      → ((a : A) (u : T) → R a u → Ensures u (k (ok a)) Q E)
      → ((e : Error) (u : T) → F e u → Ensures u (k (err e)) Q E)
      → Ensures t (attempt m k) Q E
  by_attempt {m} R F h good bad = record { at = λ f d. go (m _) (h.at f d) }
    where
      go : (r : Result A × Session T) → Holds R F r → Holds Q E (handed k r)
      go (ok a, s) h = (good a s.state h).at s.faults s.draws
      go (err e, s) h = (bad e s.state h).at s.faults s.draws

module _ {T A : Type 0} {t : T} {Q : Unit {0} → T → Type 0} {E : Error → T → Type 0} where
  pub by_ignore :
      {m : Op T A} → Ensures t m (λ _ u. Q tt u) (λ _ u. Q tt u) → Ensures t (ignore m) Q E
  by_ignore {m} h = record { at = λ f d. go (m _) (h.at f d) }
    where
      go :
          (r : Result A × Session T)
          → Holds (λ _ u. Q tt u) (λ _ u. Q tt u) r
          → Holds Q E (ignored r)
      go (ok a, s) h = h
      go (err e, s) h = h

module _ {T A B : Type 0} {t : T} {Q : B → T → Type 0} {E : Error → T → Type 0}
    (k : Result A → Op T B) where
  -- A query whose error is looked at.
  pub by_tried :
      (f : T → A)
      → Ensures t (k (ok (f t))) Q E
      → Ensures t (k (err driver)) Q E
      → Ensures t (attempt (query f) k) Q E
  unfolding statement
  by_tried f good bad = record { at = λ fs d. go fs d }
    where
      go :
          (fs : List Bool) (d : List (Option (List ℕ)))
          → Holds Q E (attempt (query f) k (record { state = t; faults = fs; draws = d }))
      go [] d = good.at [] d
      go (true ∷ fs) d = bad.at fs d
      go (false ∷ fs) d = good.at fs d
