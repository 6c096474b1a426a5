-- ===== src/Admin.antt =====
-- internal/admin/setup.go: the one-time token that creates the first administrator.
pub mod Once
mod Tests
use flagbase.Prelude.{
  ℕ, ◌+◌, String, Bool, true, false, not, ◌&&◌, ◌||◌, List, [], ◌∷◌, ltb, ◌==◌, if◌then◌else◌,
}
use flagbase.Db.{Op, pure, gets, modify, draw, ◌>>=◌, ◌>>◌}
use flagbase.Ids.{encode_to_string}

-- Times are in seconds; `expires_at` matters only where there is a token.
pub record SetupManager : Type 0 where
  pub token : String
  pub expires_at : ℕ
  pub consumed : Bool

abbrev pub new_setup_manager : SetupManager
new_setup_manager = record { token = ""; expires_at = 0; consumed = false }

-- The token is valid for a quarter of an hour.
unfoldable pub generate_token : ℕ → Op SetupManager String
unfolding encode_to_string
generate_token now = do
  b ← draw
  let token = encode_to_string b
  modify (λ s. record { token = token; expires_at = now + 900; consumed = false })
  pure token

unfoldable pub refuses : ℕ → String → SetupManager → Bool
refuses now token s = s.consumed || s.token == "" || ltb s.expires_at now || not (s.token == token)

unfoldable pub consume : ℕ → String → SetupManager → Bool × SetupManager
unfolding refuses
consume now token s =
    if refuses now token s then (false, s) else (true, record s { consumed = true })

unfoldable pub is_active : ℕ → SetupManager → Bool
is_active now s = not s.consumed && not (s.token == "") && ltb now s.expires_at
