-- ===== src/Iam/Accounts/Tokens.antt =====
-- ValidateToken on the tokens of IssueToken, and on others.
use flagbase.Prelude.{ℕ, ◌+◌, ◌<◌, Bool, true, false, ◌≡◌, refl, ap, List, ◌++◌, Option, none, some}
use flagbase.Text.{codes, trim_prefix}
use flagbase.Text.Laws.{trim_prefix-append}
use flagbase.Db.{Error, ok}
use flagbase.Iam.{User, Claims, Service, Crypto, IsJwt}
use flagbase.Iam.Accounts.{key_of, claims_of, or_fail, issue_token, validate_token}

or_fail-ok : {A : Type 0} (o : Option A) (e : Error) {a : A} → or_fail o e ≡ ok a → o ≡ some a
or_fail-ok none e h = absurd (cc)
or_fail-ok (some b) e h = cc

module _ (crypto : Crypto) (service : Service) where
  -- A token that IssueToken has signed, sent as a bearer token before it expires, validates to the
  -- claims of its user.
  pub validate_token-issue_token :
      (jwt : IsJwt crypto) (now later : ℕ) (u : User) (token : List ℕ)
      → issue_token crypto service now u ≡ ok token
      → later < now + service.token_ttl
      → validate_token crypto service later (codes "Bearer " ++ token)
        ≡ ok (claims_of service now u)
  unfolding issue_token validate_token
  validate_token-issue_token jwt now later u token signed fresh =
      rw (trim_prefix-append (codes "Bearer ") token) (
        rw
          (jwt.parse_sign (key_of service) service.jwt_secret (claims_of service now u) later token
            (or_fail-ok _ _ signed) refl fresh)
          refl)

  -- A token that validates is signed with an HMAC: none that names another method, such as `none`
  -- or a public key, passes.
  pub validate_token_hmac :
      (jwt : IsJwt crypto) (now : ℕ) (token : List ℕ) (claims : Claims)
      → validate_token crypto service now token ≡ ok claims
      → crypto.is_hmac (trim_prefix token (codes "Bearer ")) ≡ true
  unfolding validate_token
  validate_token_hmac jwt now token claims h = go (crypto.is_hmac bare) refl
    where
      bare : List ℕ
      bare = trim_prefix token (codes "Bearer ")

      go : (b : Bool) → crypto.is_hmac bare ≡ b → b ≡ true
      go true e = refl
      go false e =
          let refused : crypto.parse (key_of service) now bare ≡ none =
            jwt.parse_unkeyed (key_of service) now bare (ap (key_of service) e) in
          let parsed : crypto.parse (key_of service) now bare ≡ some claims = or_fail-ok _ _ h in
          absurd (cc)
