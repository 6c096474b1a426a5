-- ===== src/Iam/Accounts/Registering.antt =====
-- Register, and the first login.
use flagbase.Prelude.{
  ℕ, ◌+◌, ◌<◌, String, Bool, true, false, ◌≡◌, refl, sym, ap, ◌∙◌, ◌⊎◌, inl, inr, List, [], ◌∷◌,
  ◌++◌, first, some, arith, any, ◌==◌, eq_iff, if◌then◌else◌, Bool-cases, any-or,
}
use flagbase.Text.{codes}
use flagbase.Db.{Error, driver, entropy, unique, user_exists, own_error, Result, ok, err, Session}
use flagbase.Db.Ensures.{Ensures, by_pure, by_bind, by_draw, by_renamed, last_statement, on_ok}
use flagbase.Ids.{new_id}
use flagbase.Sorting.{Sorting}
use flagbase.Iam.{User, Service, Crypto, IsJwt}
use flagbase.Iam.Tables.{Account, Tables, same_account, insert_account}
use flagbase.Iam.Accounts.{
  user_of, hash_password, issue_token, validate_token, register, login, group_names,
}
use flagbase.Iam.Accounts.Tokens.{validate_token-issue_token}
use flagbase.Iam.Accounts.Login.{with_email, login_calm}

first-append :
    (email : String) (a : Account) (xs : List Account)
    → any (λ v. same_account v a) xs ≡ false
    → a.email ≡ email
    → first (λ u. u.email == email) (xs ++ a ∷ []) ≡ some a
first-append email a [] h e = ground (arith, eq_iff a.email email)
first-append email a (x ∷ xs) h e =
    ground (arith, first-append email a xs, eq_iff x.email a.email, eq_iff x.email email)

insert_account-ok :
    (a b : Account) (t u : Tables)
    → insert_account a t ≡ ok (b, u)
    → (b ≡ a) × (with_email a.email u ≡ some a)
unfolding insert_account
insert_account-ok a b t u h = go (any (λ v. same_account v a) t.users) refl h
  where
    go :
        (c : Bool)
        → any (λ v. same_account v a) t.users ≡ c
        → if◌then◌else◌ {A = Result (Account × Tables)} c
            (err unique)
            (ok (a, record t { users = t.users ++ a ∷ [] }))
          ≡ ok (b, u)
        → (b ≡ a) × (with_email a.email u ≡ some a)
    go true e h = absurd (cc)
    go false e h =
        let q : u ≡ record t { users = t.users ++ a ∷ [] } = cc in
        (cc, ap (with_email a.email) q ∙ first-append a.email a t.users e refl)

insert_account-err :
    (a : Account) (t : Tables) {e : Error} → insert_account a t ≡ err e → e ≡ unique
unfolding insert_account
insert_account-err a t h = elim (Bool-cases (any (λ v. same_account v a) t.users)) [
  | inl q ↦ ground arith
  | inr q ↦ ground arith
]

insert_account-taken :
    (a : Account) (t : Tables) {r : Account × Tables}
    → any (λ u. u.email == a.email) t.users ≡ true
    → insert_account a t ≡ ok r
    → ⊥
unfolding insert_account
insert_account-taken a t {r} k h = elim (Bool-cases (any (λ v. same_account v a) t.users)) [
  | inl e ↦ ground arith
  | inr e ↦
      let free : any (λ u. u.email == a.email) t.users ≡ false =
        (any-or (λ v. v.id == a.id) (λ v. v.email == a.email) t.users e).1 in
      ground arith
]

module _ (crypto : Crypto) where
  -- The row that Register has stored for the user that it gives back.
  pub record Registered (email password role tenant_id : String) (u : User) (t : Tables)
      : Type 0 where
    pub account : Account
    pub stored : with_email email t ≡ some account
    pub user : u ≡ user_of account []
    pub email_same : account.email ≡ email
    pub password_same : account.password ≡ hash_password crypto password
    pub role_same : account.role ≡ role
    pub tenant_same : account.tenant_id ≡ tenant_id

  pub register-Registered :
      (now : ℕ) (email password role tenant_id : String) (t : Tables)
      → Ensures t
          (register crypto now email password role tenant_id)
          (λ u v. Registered email password role tenant_id u v)
          (λ _ _. Unit)
  unfolding register new_id
  register-Registered now email password role tenant_id t =
      by_bind (λ _ _. Unit) (by_draw tt λ b. by_pure _ tt)
        λ id u _.
          by_bind (λ row v. (row ≡ account id) × (with_email email v ≡ some (account id)))
            (by_renamed user_exists (
              last_statement (insert_account (account id)) tt (λ _ _. tt)
                λ row v h. insert_account-ok (account id) row u v h))
            λ row v h. by_pure _ (record {
              account = account id;
              stored = h.1;
              user = ap (λ r. user_of r []) h.0;
              email_same = refl;
              password_same = refl;
              role_same = refl;
              tenant_same = refl;
            })
    where
      account : String → Account
      account id = record {
        id = id;
        email = email;
        password = hash_password crypto password;
        role = role;
        tenant_id = tenant_id;
        created_at = now;
      }

  -- With the e-mail address of an account, Register fails: with the error for an account that
  -- exists, or one of the driver or the random source; and nothing changes.
  pub register_taken :
      (now : ℕ) (email password role tenant_id : String) (t : Tables)
      → any (λ u. u.email == email) t.users ≡ true
      → Ensures t
          (register crypto now email password role tenant_id)
          (λ _ _. ⊥)
          (λ e v. (v ≡ t) × ((e ≡ user_exists) ⊎ (e ≡ driver) ⊎ (e ≡ entropy)))
  unfolding register new_id
  register_taken now email password role tenant_id t k =
      by_bind (λ _ v. v ≡ t) (by_draw (refl, inr (inr refl)) λ b. by_pure _ refl)
        λ id u q.
          by_bind (λ _ _. ⊥)
            (by_renamed user_exists (
              last_statement (insert_account (account id)) (q, inr (inl refl))
                (λ e h. (q, inl (refused id u q e h)))
                λ row v h. insert_account-taken (account id) u (taken u q) h))
            λ row v h. absurd h
    where
      account : String → Account
      account id = record {
        id = id;
        email = email;
        password = hash_password crypto password;
        role = role;
        tenant_id = tenant_id;
        created_at = now;
      }

      taken : (u : Tables) → u ≡ t → any (λ v. v.email == email) u.users ≡ true
      taken u q = ap (λ (w : Tables). any (λ v. v.email == email) w.users) q ∙ k

      refused :
          (id : String) (u : Tables)
          → u ≡ t
          → (e : Error) → insert_account (account id) u ≡ err e
          → own_error user_exists e ≡ user_exists
      refused id u q e h = ap (own_error user_exists) (insert_account-err (account id) u h)

module _ (order : Sorting) (crypto : Crypto) (service : Service) where
  -- Once Register has returned, Login with the same e-mail address and password gives a token, if
  -- the driver does not fail and the token can be signed; and the token, sent before it expires,
  -- validates to the identifier, the address, the tenant and the role that were registered.
  pub register-login :
      (jwt : IsJwt crypto) (now later last : ℕ) (email password role tenant_id : String)
      (s r : Session Tables) (u : User) (token : List ℕ)
      → register crypto now email password role tenant_id s ≡ (ok u, r)
      → r.faults ≡ []
      → issue_token crypto service later (record u { groups = group_names order u.id r.state })
        ≡ ok token
      → last < later + service.token_ttl
      → ((login order crypto service later email password r).0 ≡ ok token)
        × (validate_token crypto service last (codes "Bearer " ++ token)
            ≡ ok (record {
              user_id = u.id;
              email = email;
              tenant_id = tenant_id;
              role = role;
              groups = group_names order u.id r.state;
              expires_at = later + service.token_ttl;
              issued_at = later;
            }))
  register-login jwt now later last email password role tenant_id s r u token done calm signed
        fresh =
      let g : Registered crypto email password role tenant_id u r.state =
        on_ok s r (register-Registered crypto now email password role tenant_id s.state) done in
      let named : List String = group_names order u.id r.state in
      (
        ap
              (λ f.
                (login order crypto service later email password
                  (record { state = r.state; faults = f; draws = r.draws })).0)
              calm
            ∙ (login_calm order crypto service later email password g.account r.state r.draws
                  g.stored g.password_same
                ∙ (ap
                      (λ (v : User).
                        issue_token crypto service later
                          (record v { groups = group_names order v.id r.state }))
                      (sym g.user)
                    ∙ signed)),
        validate_token-issue_token crypto service jwt later last (record u { groups = named }) token
              signed fresh
            ∙ λ i. ok (record {
              user_id = u.id;
              email = (ap (λ (v : User). v.email) g.user ∙ g.email_same) i;
              tenant_id = (ap (λ (v : User). v.tenant_id) g.user ∙ g.tenant_same) i;
              role = (ap (λ (v : User). v.role) g.user ∙ g.role_same) i;
              groups = named;
              expires_at = later + service.token_ttl;
              issued_at = later;
            }),
      )
