-- ===== src/Iam/Accounts/Leaving.antt =====
-- DeleteUser ends the access of an account.
use flagbase.Prelude.{
  ℕ, String, Bool, true, false, not, ◌≡◌, refl, ap, ◌∙◌, ◌⊎◌, inl, inr, List, [], ◌∷◌, first, All,
  All-keep, All-imp, keep, eqb, none, some, arith, any, any-keep_none, ◌==◌, eq_iff, Bool-cases,
  Distinct, subst,
}
use flagbase.Db.{Error, driver, user_not_found, require, ◌>>◌}
use flagbase.Db.Ensures.{
  Ensures, by_pure, by_raise, by_bind, by_query, by_statement, by_consequence,
}
use flagbase.Sorting.{Sorting, count}
use flagbase.Iam.{Service, Crypto}
use flagbase.Iam.Tables.{Account, Tables, same_account, delete_account}
use flagbase.Iam.Sound.{IsSound}
use flagbase.Iam.Accounts.{login, delete_user}
use flagbase.Iam.Accounts.Login.{with_email}

first-all :
    (P : Account → Type 0) (p : Account → Bool) (xs : List Account) {a : Account}
    → All P xs
    → first p xs ≡ some a
    → P a
first-all P p [] h e = absurd (cc)
first-all P p (x ∷ xs) {a} (q, h) e = elim (Bool-cases (p x)) [
  | inl b ↦ let same : x ≡ a = ground arith in subst P same q
  | inr b ↦ first-all P p xs {a = a} h (ground arith)
]

first-none :
    (email : String) (xs : List Account)
    → All (λ u. (u.email == email) ≡ false) xs
    → first (λ u. u.email == email) xs ≡ none
first-none email [] h = refl
first-none email (x ∷ xs) (q, h) = ground (arith, first-none email xs)

-- Of accounts with distinct addresses, those that are left have none the address of the one that
-- went.
address-gone :
    (id : String) (xs : List Account) {a : Account}
    → Distinct same_account xs
    → first (λ u. u.id == id) xs ≡ some a
    → All (λ u. (u.email == a.email) ≡ false) (keep (λ u. not (u.id == id)) xs)
address-gone id [] d e = absurd (cc)
address-gone id (x ∷ xs) {a} (q, d) e = elim (Bool-cases (x.id == id)) [
  | inl b ↦
      let same : x ≡ a = ground arith in
      let address : x.email ≡ a.email = ap (λ (u : Account). u.email) same in
      rw b (
        All-keep _ (λ u. not (u.id == id)) xs
          (All-imp (λ y. same_account x y ≡ false) _ xs
            (λ y h. ground (arith, eq_iff y.email a.email, eq_iff x.email y.email)) q))
  | inr b ↦
      let later : first (λ u. u.id == id) xs ≡ some a = ground arith in
      let apart : same_account x a ≡ false =
        first-all (λ y. same_account x y ≡ false) (λ u. u.id == id) xs q later in
      rw b (ground arith, address-gone id xs d later)
]

count-first :
    (id : String) (xs : List Account) {a : Account}
    → first (λ u. u.id == id) xs ≡ some a
    → eqb (count (λ u. u.id == id) xs) 0 ≡ false
count-first id [] e = absurd (cc)
count-first id (x ∷ xs) {a} e = elim (Bool-cases (x.id == id)) [
  | inl b ↦ ground arith
  | inr b ↦ ground (arith, count-first id xs {a = a})
]

require-true :
    (b : Bool) (e : Error) (t : Tables)
    → b ≡ true
    → Ensures t (require b e) (λ _ u. u ≡ t) (λ _ _. ⊥)
require-true true e t h = by_pure tt refl
require-true false e t h = absurd (cc)

-- DeleteUser of an account that is there leaves no account with its address and no membership of
-- it; only the driver can make it fail, and then nothing changes.
pub delete_user_clears :
    (id : String) (a : Account) (t : Tables)
    → IsSound t
    → first (λ u. u.id == id) t.users ≡ some a
    → Ensures t
        (delete_user id)
        (λ _ v. (with_email a.email v ≡ none) × (any (λ m. m.user_id == id) v.user_groups ≡ false))
        (λ e v. (v ≡ t) × (e ≡ driver))
unfolding delete_user delete_account
delete_user_clears id a t s h =
    by_statement (delete_account id) (refl, refl) (λ e q. absurd (cc))
      λ n v q.
        let number : n ≡ count (λ u. u.id == id) t.users = cc in
        let after : v ≡ deleted = cc in
        by_consequence
          (require-true (not (eqb n 0)) user_not_found v (ground (arith, count-first id t.users h)))
          (λ _ w k. (
            ap (with_email a.email) (k ∙ after)
                ∙ first-none a.email _ (address-gone id t.users s.accounts h),
            ap (λ (x : Tables). any (λ m. m.user_id == id) x.user_groups) (k ∙ after)
                ∙ any-keep_none (λ m. m.user_id == id) (λ m. not (m.user_id == id)) t.user_groups
                    (λ m k. ground arith),
          ))
          λ _ _ k. absurd k
  where
    deleted : Tables
    deleted = record t {
      users = keep (λ u. not (u.id == id)) t.users;
      user_groups = keep (λ m. not (m.user_id == id)) t.user_groups;
    }

module _ (order : Sorting) (crypto : Crypto) (service : Service) where
  -- Where no account has the address, Login fails with the error for an unknown user, or with one
  -- of the driver.
  login_unknown :
      (now : ℕ) (email password : String) (t : Tables)
      → with_email email t ≡ none
      → Ensures t
          (login order crypto service now email password)
          (λ _ _. ⊥)
          (λ e _. (e ≡ user_not_found) ⊎ (e ≡ driver))
  unfolding login
  login_unknown now email password t h =
      by_query _ (with_email email) (inr refl) (rw h (by_raise user_not_found (inl refl)))

  -- After DeleteUser has returned, nobody logs in with the address of the account, whatever the
  -- password: Login fails with the error for an unknown user, or with one of the driver.
  pub delete_user-login :
      (now : ℕ) (id password : String) (a : Account) (t : Tables)
      → IsSound t
      → first (λ u. u.id == id) t.users ≡ some a
      → Ensures t
          (delete_user id >> login order crypto service now a.email password)
          (λ _ _. ⊥)
          (λ e _. (e ≡ user_not_found) ⊎ (e ≡ driver))
  delete_user-login now id password a t s h =
      by_bind
        (λ _ v. (with_email a.email v ≡ none) × (any (λ m. m.user_id == id) v.user_groups ≡ false))
        (by_consequence (delete_user_clears id a t s h) (λ _ v k. k) (λ _ v k. inr k.1))
        λ _ v k. login_unknown now a.email password v k.0
