-- ===== src/Feature/Engine/Steps.antt =====
-- Symbolic execution of a statement on the engine's tables.
use mathlib.Core.Path.{subst₂}
use flagbase.Prelude.{◌≡◌, refl}
use flagbase.Db.{Error, driver, Result, ok, err, Op, ◌>>=◌}
use flagbase.Db.Ensures.{Ensures, by_statement}
use flagbase.Feature.Tables.{Tables}
use flagbase.Feature.Engine.{Engine, on_db, sql}

module _ {A B : Type 0} {k : A → Op Engine B} {Q : B → Engine → Type 0}
    {E : Error → Engine → Type 0} where
  pub by_sql :
      (e : Engine) (f : Tables → Result (A × Tables))
      → E driver e
      → ((x : Error) → f e.db ≡ err x → E x e)
      → ((a : A) (t : Tables) → f e.db ≡ ok (a, t) → Ensures (record e { db = t }) (k a) Q E)
      → Ensures e (sql f >>= k) Q E
  by_sql e f fault bad good =
      by_statement (λ e'. on_db e' (f e'.db)) fault (λ x. failed (f e.db) refl x)
        (λ a u. passed (f e.db) refl a u)
    where
      failed : (r : Result (A × Tables)) → f e.db ≡ r → (x : Error) → on_db e r ≡ err x → E x e
      failed (ok (a, t)) h x q = absurd (cc)
      failed (err y) h x q = bad x (cc)

      passed :
          (r : Result (A × Tables))
          → f e.db ≡ r
          → (a : A) (u : Engine) → on_db e r ≡ ok (a, u)
          → Ensures u (k a) Q E
      passed (ok (b, t)) h a u q =
          let same : b ≡ a = cc in
          let state : record e { db = t } ≡ u = cc in
          subst₂ (λ x y. Ensures y (k x) Q E) same state (good b t h)
      passed (err y) h a u q = absurd (cc)
