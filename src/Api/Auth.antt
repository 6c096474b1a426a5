-- ===== src/Api/Auth.antt =====
-- internal/api/handlers.go and admin_handlers.go: registration, login, and the first administrator.
use flagbase.Prelude.{ℕ, String, Bool, not, ◌||◌, List, Option, none, some, ◌==◌, if◌then◌else◌}
use flagbase.Db.{
  Error, user_exists, user_not_found, invalid_password, Result, ok, err, Op, pure, zoom, attempt,
  ◌>>=◌,
}
use flagbase.Sorting.{Sorting}
use flagbase.Iam.{User, Service, Crypto}
use flagbase.Iam.Tables
use flagbase.Iam.Accounts.{register, login, issue_token}
use flagbase.Admin.{SetupManager, consume}
use flagbase.Api.{Reply, failure, success}

-- The components that these handlers write to.
pub record Site : Type 0 where
  pub accounts : Tables.Tables
  pub setup : SetupManager

abbrev pub on_accounts : {A : Type 0} → Op Tables.Tables A → Op Site A
on_accounts = zoom (λ t. t.accounts) (λ a t. record t { accounts = a })

abbrev pub on_setup : (SetupManager → Bool × SetupManager) → Op Site Bool
on_setup f s =
    (ok (f s.state.setup).0, record s { state = record s.state { setup = (f s.state.setup).1 } })

-- The bodies of the requests; none where a body does not decode.
pub record Registration : Type 0 where
  pub email : String
  pub password : String
  pub role : String

pub record Credentials : Type 0 where
  pub email : String
  pub password : String

pub record Setup : Type 0 where
  pub token : String
  pub email : String
  pub password : String

-- `describe` is the text of an error.
module _ (describe : Error → String) (crypto : Crypto) where
  abbrev pub registered : Result User → Op Site (Reply User)
  registered (ok u) = pure (success 201 u)
  registered (err user_exists) = pure (failure 409 "user already exists")
  registered (err e) = pure (failure 500 (describe e))

  unfoldable pub register_handler : ℕ → Option Registration → Op Site (Reply User)
  unfolding register
  register_handler now none = pure (failure 400 "invalid request body")
  register_handler now (some req) =
      attempt
        (on_accounts (
          register crypto now req.email req.password (if req.role == "" then "user" else req.role)
            "default"))
        registered

  abbrev pub issued : ℕ → Result (List ℕ) → Op Site (Reply (List ℕ))
  issued status (ok token) = pure (success status token)
  issued status (err e) = pure (failure 500 (describe e))

  abbrev pub logged_in : Result (List ℕ) → Op Site (Reply (List ℕ))
  logged_in (ok token) = pure (success 200 token)
  logged_in (err user_not_found) = pure (failure 401 "invalid credentials")
  logged_in (err invalid_password) = pure (failure 401 "invalid credentials")
  logged_in (err e) = pure (failure 500 (describe e))

  module _ (service : Service) where
    unfoldable pub login_handler : Sorting → ℕ → Option Credentials → Op Site (Reply (List ℕ))
    unfolding login
    login_handler order now none = pure (failure 400 "invalid request body")
    login_handler order now (some req) =
        attempt (on_accounts (login order crypto service now req.email req.password)) logged_in

    abbrev pub first_admin : ℕ → Result User → Op Site (Reply (List ℕ))
    first_admin now (err e) = pure (failure 500 (describe e))
    first_admin now (ok u) = issued 201 (issue_token crypto service now u)

    unfoldable pub complete_setup : ℕ → Option Setup → Op Site (Reply (List ℕ))
    unfolding consume register issue_token
    complete_setup now none = pure (failure 400 "invalid request body")
    complete_setup now (some req) =
        if req.token == "" || req.email == "" || req.password == ""
        then pure (failure 400 "token, email and password are required")
        else on_setup (consume now req.token) >>= λ valid.
            if not valid
            then pure (failure 401 "invalid or expired setup token")
            else attempt
                (on_accounts (register crypto now req.email req.password "admin" "default"))
                (first_admin now)
