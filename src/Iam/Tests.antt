-- ===== src/Iam/Tests.antt =====
-- Runs of internal/iam/service.go at small inputs, and the theorems at inputs that meet them.
pub mod Crypto
use flagbase.Prelude.{
  ℕ, String, true, false, ◌≡◌, ◌≢◌, ◌⊎◌, refl, List, [], ◌∷◌, ◌++◌, All, Option, none, some, arith,
  eq_iff, first, any, ◌==◌, ◌<◌,
}
use flagbase.Text.{codes, has_prefix, trim_prefix}
use flagbase.Db.{
  Session, Result, ok, err, driver, entropy, user_exists, user_not_found, invalid_password,
  statement, draw, ◌>>◌,
}
use flagbase.Db.Ensures.{Ensures}
use flagbase.Ids.{new_id, encode_to_string}
use flagbase.Ids.Hex.{IsByte}
use flagbase.Sorting.Insertion.{insertion}
use flagbase.Iam.{User, Claims, Service}
use flagbase.Iam.Tables.{Account, GroupRow, Membership, Tables, insert_account, groups_of}
use flagbase.Iam.Accounts.{
  claims_of, hash_password, register, login, issue_token, validate_token, group_names,
  user_group_names, delete_user,
}
use flagbase.Iam.Accounts.Tokens.{validate_token-issue_token, validate_token_hmac}
use flagbase.Iam.Accounts.Login.{with_email, Authentic, login-Authentic, login_wrong_password}
use flagbase.Iam.Accounts.Registering.{register_taken, register-login}
use flagbase.Iam.Accounts.Leaving.{delete_user_clears, delete_user-login}
use flagbase.Iam.Sound.{IsSound}
use flagbase.Iam.Sound.Requests.{perform, remove, perform_keeps}
use flagbase.Iam.Tests.Crypto.{crypto, crypto-IsJwt, token, claims}

abbrev service : Service
service = record { jwt_secret = "secret"; token_ttl = 10 }

abbrev empty : Session Tables
empty = record {
  state = record { users = []; groups = []; user_groups = [] };
  faults = [];
  draws = some (1 ∷ []) ∷ [];
}

abbrev ann : User
ann = record {
  id = "01";
  email = "ann@x";
  role = "user";
  tenant_id = "default";
  groups = [];
  created_at = 3;
}

abbrev account : Account
account = record {
  id = "01";
  email = "ann@x";
  password = "7077";
  role = "user";
  tenant_id = "default";
  created_at = 3;
}

abbrev staff : Tables
staff = record {
  users = account ∷ [];
  groups = record { id = "g1"; name = "beta"; description = ""; created_at = 1 } ∷ [];
  user_groups = record { user_id = "01"; group_id = "g1" } ∷ [];
}

abbrev filled : Session Tables
filled = (register crypto 3 "ann@x" "pw" "user" "default" empty).1

-- What a run looks into.
running : Unit {0}
unfolding register login issue_token validate_token group_names user_group_names groups_of
    hash_password insert_account new_id draw statement encode_to_string insertion has_prefix
    trim_prefix
running = tt

registered : register crypto 3 "ann@x" "pw" "user" "default" empty ≡ (ok ann, filled)
unfolding running
registered = refl

calm : filled.faults ≡ []
unfolding running
calm = refl

signed :
    issue_token crypto service 5 (record ann { groups = group_names insertion "01" filled.state })
    ≡ ok token
unfolding running
signed = refl

signed_claims : claims_of service 5 ann ≡ claims
signed_claims = refl

password_of : account.password ≡ hash_password crypto "pw"
unfolding running
password_of = refl

bytes_of_pw : All IsByte (codes "pw")
bytes_of_pw = ground arith

bytes_of_qw : All IsByte (codes "qw")
bytes_of_qw = ground arith

differ : codes "pw" ≢ codes "qw"
differ = ground arith

staff-IsSound : IsSound staff
staff-IsSound = record {
  accounts = (tt, tt);
  groups = (tt, tt);
  memberships = (tt, tt);
  of_users = (refl, tt);
  of_groups = (refl, tt);
}

validated : validate_token crypto service 9 (codes "Bearer " ++ token) ≡ ok claims
unfolding running
validated = refl

register-login_example :
    ((login insertion crypto service 5 "ann@x" "pw" filled).0 ≡ ok token)
    × (validate_token crypto service 9 (codes "Bearer " ++ token)
        ≡ ok (record {
          user_id = "01";
          email = "ann@x";
          tenant_id = "default";
          role = "user";
          groups = group_names insertion "01" filled.state;
          expires_at = 15;
          issued_at = 5;
        }))
register-login_example =
    register-login insertion crypto service crypto-IsJwt 3 5 9 "ann@x" "pw" "user" "default" empty
      filled ann token registered calm signed (omega arith)

login_wrong_password_example :
    Ensures staff
      (login insertion crypto service 5 "ann@x" "qw")
      (λ _ _. ⊥)
      (λ e u. (u ≡ staff) × ((e ≡ invalid_password) ⊎ (e ≡ driver)))
login_wrong_password_example =
    login_wrong_password insertion crypto service 5 "ann@x" "pw" "qw" account staff refl password_of
      bytes_of_pw bytes_of_qw differ

login-Authentic_example :
    Ensures staff
      (login insertion crypto service 5 "ann@x" "pw")
      (λ t u. (u ≡ staff) × Authentic insertion crypto service 5 "ann@x" "pw" staff t)
      (λ _ u. u ≡ staff)
login-Authentic_example = login-Authentic insertion crypto service 5 "ann@x" "pw" staff

register_taken_example :
    Ensures staff
      (register crypto 7 "ann@x" "zz" "admin" "default")
      (λ _ _. ⊥)
      (λ e v. (v ≡ staff) × ((e ≡ user_exists) ⊎ (e ≡ driver) ⊎ (e ≡ entropy)))
register_taken_example = register_taken crypto 7 "ann@x" "zz" "admin" "default" staff refl

delete_user-login_example :
    Ensures staff
      (delete_user "01" >> login insertion crypto service 7 "ann@x" "pw")
      (λ _ _. ⊥)
      (λ e _. (e ≡ user_not_found) ⊎ (e ≡ driver))
delete_user-login_example =
    delete_user-login insertion crypto service 7 "01" "pw" account staff staff-IsSound refl

perform_keeps_example :
    Ensures staff (perform crypto (remove "01")) (λ _ u. IsSound u) (λ _ u. IsSound u)
perform_keeps_example = perform_keeps crypto (remove "01") staff staff-IsSound
