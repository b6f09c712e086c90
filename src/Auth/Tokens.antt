-- ===== src/Auth/Tokens.antt =====
-- src/infrastructure/auth/token-service.ts. JWT, bcrypt and SHA-256 are parameters.
pub mod Duration
use realtime_game_server.Base.{ℕ, ◌+◌, Bool, true, false, Option, none, some, Key, if◌then◌else◌}

pub data TokenType : Type 0 where
  access refresh other : TokenType

pub record AccessTokenPayload : Type 0 where
  pub user_id : Key
  pub player_id : Key
  pub username : Key
  pub type : TokenType

pub record RefreshTokenPayload : Type 0 where
  pub user_id : Key
  pub type : TokenType
  pub jti : Key

-- what the service calls of the libraries: `jwt.sign` and `jwt.verify` with each of the two secrets
-- (`none` where it throws), `bcrypt.compare` and the SHA-256 digest
pub record Crypto : Type 0 where
  pub sign_access : AccessTokenPayload → Key
  pub sign_refresh : RefreshTokenPayload → Key
  pub jwt_verify_access : Key → Option AccessTokenPayload
  pub jwt_verify_refresh : Key → Option RefreshTokenPayload
  pub compare : Key → Key → Bool
  pub sha256 : Key → Key

abbrev pub is_access : TokenType → Bool
is_access access = true
is_access _ = false

abbrev pub is_refresh : TokenType → Bool
is_refresh refresh = true
is_refresh _ = false

-- what the pair of a refresh token holds, its `jti` aside
pub record RefreshTokenPair : Type 0 where
  pub token : Key
  pub token_hash : Key
  pub expires_at : ℕ

module _ (c : Crypto) where
  unfoldable pub hash_token : Key → Key
  hash_token token = c.sha256 token

  -- `none` stands for a throw
  unfoldable pub verify_access_token : Key → Option AccessTokenPayload
  verify_access_token token = elim (c.jwt_verify_access token) [
    | none ↦ none
    | some payload ↦ if is_access payload.type then some payload else none
  ]

  unfoldable pub verify_refresh_token : Key → Option RefreshTokenPayload
  verify_refresh_token token = elim (c.jwt_verify_refresh token) [
    | none ↦ none
    | some payload ↦ if is_refresh payload.type then some payload else none
  ]

  -- the comparison with the dummy hash takes time and decides nothing
  unfoldable pub verify_password_with_timing_pad : Key → Option Key → Bool
  verify_password_with_timing_pad password none = false
  verify_password_with_timing_pad password (some hash) = c.compare password hash

  unfoldable pub sign_access_token : Key → Key → Key → Key
  sign_access_token user_id player_id username =
      c.sign_access
        (record { user_id = user_id; player_id = player_id; username = username; type = access })

  -- `jti` is what `randomBytes` returns, `ttl` the configured duration in milliseconds
  unfoldable pub create_refresh_token_pair : ℕ → ℕ → Key → Key → RefreshTokenPair
  unfolding hash_token
  create_refresh_token_pair now ttl jti user_id =
      let token = c.sign_refresh (record { user_id = user_id; type = refresh; jti = jti }) in
      record { token = token; token_hash = hash_token token; expires_at = now + ttl }
