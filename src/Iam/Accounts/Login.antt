-- ===== src/Iam/Accounts/Login.antt =====
-- Who can log in.
use flagbase.Prelude.{
  ℕ, String, true, ◌≡◌, ◌≢◌, refl, sym, ◌∙◌, ◌⊎◌, inl, inr, List, [], first, All, Option, none,
  some, arith, ◌==◌, eq_iff,
}
use flagbase.Db.{Error, driver, invalid_password, user_not_found, Result, ok, err, lift, statement}
use flagbase.Db.Ensures.{Ensures, by_raise, by_query, by_require}
use flagbase.Ids.Hex.{IsByte, encode_to_string_injective}
use flagbase.Sorting.{Sorting}
use flagbase.Iam.{Service, Crypto}
use flagbase.Iam.Tables.{Account, Tables}
use flagbase.Iam.Accounts.{
  user_of, hash_password, issue_token, check_login, login, group_names, user_group_names,
}

abbrev pub with_email : String → Tables → Option Account
with_email email t = first (λ u. u.email == email) t.users

by_value :
    {T A : Type 0} {t : T} {Q : A → T → Type 0} {E : Error → T → Type 0} (r : Result A)
    → ((a : A) → r ≡ ok a → Q a t)
    → ((e : Error) → r ≡ err e → E e t)
    → Ensures t (lift r) Q E
by_value (ok a) good bad = record { at = λ f d. good a refl }
by_value (err e) good bad = record { at = λ f d. bad e refl }

module _ (order : Sorting) (crypto : Crypto) (service : Service) where
  -- What a token that Login gives out rests on.
  pub record Authentic (now : ℕ) (email password : String) (t : Tables) (token : List ℕ)
      : Type 0 where
    pub account : Account
    pub stored : with_email email t ≡ some account
    pub same_hash : account.password ≡ hash_password crypto password
    pub issued :
        issue_token crypto service now (user_of account (group_names order account.id t)) ≡ ok token

  check-Authentic :
      (now : ℕ) (email password : String) (found : Option Account) (t : Tables)
      → with_email email t ≡ found
      → Ensures t
          (check_login order crypto service now password found)
          (λ token u. (u ≡ t) × Authentic now email password t token)
          (λ _ u. u ≡ t)
  unfolding user_group_names
  check-Authentic now email password none t h = by_raise user_not_found refl
  check-Authentic now email password (some a) t h =
      by_require _ (a.password == hash_password crypto password) invalid_password
        (λ same. by_query _ (group_names order a.id) refl (
          by_value (issue_token crypto service now (user_of a (group_names order a.id t)))
            (λ token q. (
              refl,
              record {
                account = a;
                stored = h;
                same_hash = ground (arith, eq_iff a.password (hash_password crypto password));
                issued = q;
              },
            ))
            λ e q. refl))
        λ _. refl

  -- Login changes nothing; a token that it gives out is that of the account with the e-mail
  -- address, names the account's role and groups, and the account's hash is that of the password.
  pub login-Authentic :
      (now : ℕ) (email password : String) (t : Tables)
      → Ensures t
          (login order crypto service now email password)
          (λ token u. (u ≡ t) × Authentic now email password t token)
          (λ _ u. u ≡ t)
  unfolding login
  login-Authentic now email password t =
      by_query _ (with_email email) refl
        (check-Authentic now email password (with_email email t) t refl)

  hash_differs :
      (p q : String)
      → All IsByte (crypto.sum256 p)
      → All IsByte (crypto.sum256 q)
      → crypto.sum256 p ≢ crypto.sum256 q
      → hash_password crypto p ≢ hash_password crypto q
  unfolding hash_password
  hash_differs p q hp hq n e = n (encode_to_string_injective _ _ hp hq e)

  -- With a password whose digest is another one than that of the account's password, Login fails
  -- with the error for a wrong password, or with one of the driver, and changes nothing.
  pub login_wrong_password :
      (now : ℕ) (email chosen given : String) (a : Account) (t : Tables)
      → with_email email t ≡ some a
      → a.password ≡ hash_password crypto chosen
      → All IsByte (crypto.sum256 chosen)
      → All IsByte (crypto.sum256 given)
      → crypto.sum256 chosen ≢ crypto.sum256 given
      → Ensures t
          (login order crypto service now email given)
          (λ _ _. ⊥)
          (λ e u. (u ≡ t) × ((e ≡ invalid_password) ⊎ (e ≡ driver)))
  unfolding login
  login_wrong_password now email chosen given a t h k hp hq n =
      by_query _ (with_email email) (refl, inr refl)
        (rw h (
          by_require _ (a.password == hash_password crypto given) invalid_password
            (λ same. absurd (
              hash_differs chosen given hp hq n
                (sym k ∙ ground (arith, eq_iff a.password (hash_password crypto given)))))
            λ _. (refl, inl refl)))

  -- Where the driver does not fail, the right password gives what IssueToken gives.
  pub login_calm :
      (now : ℕ) (email password : String) (a : Account) (t : Tables)
      (draws : List (Option (List ℕ)))
      → with_email email t ≡ some a
      → a.password ≡ hash_password crypto password
      → (login order crypto service now email password
          (record { state = t; faults = []; draws = draws })).0
        ≡ issue_token crypto service now (user_of a (group_names order a.id t))
  unfolding login user_group_names statement
  login_calm now email password a t draws h k =
      let same : (a.password == hash_password crypto password) ≡ true =
        ground (arith, eq_iff a.password (hash_password crypto password)) in
      rw h (rw same refl)
