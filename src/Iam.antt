-- ===== src/Iam.antt =====
-- internal/iam: the data of service.go and claims.go, and what they use of other packages.
pub mod Tables
pub mod Accounts
pub mod Sound
pub mod Tests
use flagbase.Prelude.{ℕ, String, Bool, true, List, Option, none, some, ◌≡◌, ◌<◌, if◌then◌else◌}

pub record User : Type 0 where
  pub id : String
  pub email : String
  pub role : String
  pub tenant_id : String
  pub groups : List String
  pub created_at : ℕ

pub record Group : Type 0 where
  pub id : String
  pub name : String
  pub description : String
  pub member_count : ℕ
  pub created_at : ℕ

-- The payload of a token; times are in seconds, as in the token.
pub record Claims : Type 0 where
  pub user_id : String
  pub email : String
  pub tenant_id : String
  pub role : String
  pub groups : List String
  pub expires_at : ℕ
  pub issued_at : ℕ

-- The fields of Service beside the database.
pub record Service : Type 0 where
  pub jwt_secret : String
  pub token_ttl : ℕ

-- The packages that the service calls. `sum256` is crypto/sha256; `sign` is SignedString with
-- HS256, `parse` is ParseWithClaims: its first argument is the key function, which is told
-- whether the token's method is an HMAC, its second the time. Tokens are code points.
pub record Crypto : Type 0 where
  pub sum256 : String → List ℕ
  pub sign : String → Claims → Option (List ℕ)
  pub is_hmac : List ℕ → Bool
  pub parse : (Bool → Option String) → ℕ → List ℕ → Option Claims

-- What golang-jwt documents: a token that has not expired gives back the claims it was signed
-- with, its method is an HMAC, and a token is refused if the key function gives no key for its method.
pub record IsJwt (c : Crypto) : Type 0 where
  pub parse_sign :
      (key_of : Bool → Option String) (secret : String) (claims : Claims) (now : ℕ) (token : List ℕ)
      → c.sign secret claims ≡ some token
      → key_of true ≡ some secret
      → now < claims.expires_at
      → c.parse key_of now token ≡ some claims
  pub parse_unkeyed :
      (key_of : Bool → Option String) (now : ℕ) (token : List ℕ)
      → key_of (c.is_hmac token) ≡ none
      → c.parse key_of now token ≡ none
