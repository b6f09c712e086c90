-- ===== src/Auth/Service.antt =====
-- src/application/services/auth-service.ts. `now` is `Date.now()` in the call; the ids, the salted
-- password hash and the `jti` that a call draws at random are arguments.
use realtime_game_server.Base.{ℕ, not, Option, none, some, Key, ◌==◌, ltb, if◌then◌else◌, is_some}
use realtime_game_server.Base.Action.{
  conflict, unauthorized, forbidden, Action, pure, throw, gets, or_throw, throw_if, ◌>>=◌, ◌>>◌,
}
use realtime_game_server.Auth.Store.{
  Db, User, Player, RefreshToken, find_by_email, find_by_username, create_user, create_player,
  find_player, find_by_token_hash, create_token, revoke, is_active, revoke_if_active,
  revoke_all_for_user,
}
use realtime_game_server.Auth.Tokens.{
  Crypto, hash_token, verify_refresh_token, verify_password_with_timing_pad, sign_access_token,
  create_refresh_token_pair,
}

pub record RegisterInput : Type 0 where
  pub email : Key
  pub username : Key

pub record AuthTokens : Type 0 where
  pub access_token : Key
  pub refresh_token : Key

pub record AuthResult : Type 0 where
  pub user : User
  pub player : Player
  pub tokens : AuthTokens

-- `toLowerCase` and `trim`
pub record Strings : Type 0 where
  pub to_lower_case : Key → Key
  pub trim : Key → Key

-- what a call reads of its surroundings: the clock, the configured lifetime of a refresh token and
-- the random `jti`
pub record Call : Type 0 where
  pub now : ℕ
  pub ttl : ℕ
  pub jti : Key

abbrev pub default_starting_coins : ℕ
default_starting_coins = 100

abbrev pub password_hash_of : Option User → Option Key
password_hash_of none = none
password_hash_of (some user) = some user.password_hash

unfoldable pub normalize_username : Strings → Key → Key
normalize_username text username = text.to_lower_case (text.trim username)

unfoldable pub normalize_email : Strings → Key → Key
normalize_email text email = text.trim (text.to_lower_case email)

module _ (c : Crypto) (call : Call) where
  unfoldable pub issue_tokens : Key → Key → Key → Action Db AuthTokens
  unfolding create_refresh_token_pair
  issue_tokens user_id player_id username = do
    let refresh = create_refresh_token_pair c call.now call.ttl call.jti user_id
    create_token user_id refresh.token_hash refresh.expires_at
    pure (record {
      access_token = sign_access_token c user_id player_id username;
      refresh_token = refresh.token;
    })

  unfoldable pub register :
      Strings → (user_id player_id password_hash : Key) → RegisterInput → Action Db AuthResult
  register text user_id player_id password_hash input = do
    let email = normalize_email text input.email
    let username = normalize_username text input.username
    existing_email ← gets (find_by_email email)
    throw_if (is_some existing_email) (conflict "Email already registered")
    existing_username ← gets (find_by_username username)
    throw_if (is_some existing_username) (conflict "Username already taken")
    user ← create_user user_id email username password_hash
    player ← create_player player_id user.id user.username default_starting_coins
    tokens ← issue_tokens user.id player.id player.username
    pure (record { user = user; player = player; tokens = tokens })

  unfoldable pub login : Strings → (email password : Key) → Action Db AuthResult
  login text email password = do
    found ← gets (find_by_email (normalize_email text email))
    let valid = verify_password_with_timing_pad c password (password_hash_of found)
    user ← or_throw found (unauthorized "Invalid credentials")
    throw_if (not valid) (unauthorized "Invalid credentials")
    player' ← gets (find_player user.id)
    player ← or_throw player' (unauthorized "Invalid credentials")
    tokens ← issue_tokens user.id player.id player.username
    pure (record { user = user; player = player; tokens = tokens })

  -- a token that was rotated already: the whole family of the user is revoked
  abbrev reuse_detected : Key → Action Db (Unit {0})
  reuse_detected user_id =
      revoke_all_for_user call.now user_id >> throw (unauthorized "Refresh token reuse detected")

  unfoldable pub refresh : Key → Action Db AuthTokens
  refresh refresh_token = do
    payload ← or_throw (verify_refresh_token c refresh_token) (unauthorized "Invalid refresh token")
    found ← gets (find_by_token_hash (hash_token c refresh_token))
    stored ← or_throw found (unauthorized "Refresh token revoked or expired")
    throw_if (ltb stored.expires_at call.now) (unauthorized "Refresh token revoked or expired")
    throw_if (not (stored.user_id == payload.user_id)) (unauthorized "Invalid refresh token")
    revoked ← revoke_if_active call.now (hash_token c refresh_token)
    if revoked then pure tt else reuse_detected stored.user_id
    player' ← gets (find_player payload.user_id)
    player ← or_throw player' (unauthorized "Invalid refresh token")
    issue_tokens payload.user_id player.id player.username

  -- the rest of `logout`, for the row that was found
  unfoldable pub discard : (user_id token_hash : Key) → Option RefreshToken → Action Db (Unit {0})
  discard user_id token_hash none = pure tt
  discard user_id token_hash (some stored) = do
    throw_if (not (stored.user_id == user_id))
        (forbidden "Refresh token does not belong to this user")
    if is_active stored then revoke call.now token_hash else pure tt

  unfoldable pub logout : (user_id refresh_token : Key) → Action Db (Unit {0})
  unfolding discard
  logout user_id refresh_token = do
    found ← gets (find_by_token_hash (hash_token c refresh_token))
    discard user_id (hash_token c refresh_token) found

  unfoldable pub logout_all : Key → Action Db (Unit {0})
  logout_all user_id = revoke_all_for_user call.now user_id
