-- ===== src/Auth/Account.antt =====
-- A new account: what a registration answers and writes, and the login after it.
use realtime_game_server.Base.{◌+◌, ◌≡◌, refl, true, false, none, some, Key, ◌==◌, any, arith}
use realtime_game_server.Base.Dict.{lookup, insert, values, lookup-insert_self, find?-insert}
use realtime_game_server.Base.Action.{ok}
use realtime_game_server.Auth.Store.{
  Db, User, Player, RefreshToken, find_by_email, find_by_username, find_player, create_user,
  create_player, create_token,
}
use realtime_game_server.Auth.Tokens.{
  Crypto, create_refresh_token_pair, sign_access_token, verify_password_with_timing_pad,
}
use realtime_game_server.Auth.Service.{
  Call, Strings, RegisterInput, AuthTokens, default_starting_coins, normalize_email,
  normalize_username, issue_tokens, register, login,
}

module _ (c : Crypto) (call : Call) (user_id : Key) where
  -- the digest of the refresh token that the call issues
  abbrev pub digest : Key
  digest = (create_refresh_token_pair c call.now call.ttl call.jti user_id).token_hash

  abbrev pub token_row : RefreshToken
  token_row = record {
    user_id = user_id;
    token_hash = digest;
    expires_at = call.now + call.ttl;
    revoked_at = none;
  }

  abbrev pub issued : Key → Key → AuthTokens
  issued player_id username = record {
    access_token = sign_access_token c user_id player_id username;
    refresh_token = (create_refresh_token_pair c call.now call.ttl call.jti user_id).token;
  }

  create_token_succeeds :
      (db : Db)
      → lookup digest db.tokens ≡ none
      → create_token user_id digest (call.now + call.ttl) db
        ≡ (ok token_row, record db { tokens = insert digest token_row db.tokens })
  unfolding create_token
  create_token_succeeds db unused = rw (unused, create_token) refl

  pub issue_tokens_succeeds :
      (player_id username : Key) (db : Db)
      → lookup digest db.tokens ≡ none
      → issue_tokens c call user_id player_id username db
        ≡ (ok (issued player_id username), record db { tokens = insert digest token_row db.tokens })
  unfolding issue_tokens create_refresh_token_pair
  issue_tokens_succeeds player_id username db unused =
      ground (arith, create_token_succeeds db unused)

module _ (c : Crypto) (call : Call) (text : Strings) (user_id player_id password_hash : Key)
    (input : RegisterInput) where
  abbrev pub new_user : User
  new_user = record {
    id = user_id;
    email = normalize_email text input.email;
    username = normalize_username text input.username;
    password_hash = password_hash;
  }

  abbrev pub new_player : Player
  new_player = record {
    id = player_id;
    user_id = user_id;
    username = normalize_username text input.username;
    coins = default_starting_coins;
    experience = 0;
    level = 1;
  }

  -- Nobody has the email or the username, and the new token's digest is unused.
  pub record CanRegister (db : Db) : Type 0 where
    pub email : find_by_email (normalize_email text input.email) db ≡ none
    pub username : find_by_username (normalize_username text input.username) db ≡ none
    pub player :
        any (λ p. p.username == normalize_username text input.username) (values db.players) ≡ false
    pub unused : lookup (digest c call user_id) db.tokens ≡ none

  abbrev pub registered : Db → Db
  registered db = record {
    users = insert user_id new_user db.users;
    players = insert user_id new_player db.players;
    tokens = insert (digest c call user_id) (token_row c call user_id) db.tokens;
  }

  create_user_succeeds :
      (db : Db)
      → CanRegister db
      → create_user user_id new_user.email new_user.username password_hash db
        ≡ (ok new_user, record db { users = insert user_id new_user db.users })
  unfolding create_user
  create_user_succeeds db can = rw (can.email, can.username, create_user) refl

  create_player_succeeds :
      (db : Db)
      → any (λ p. p.username == new_player.username) (values db.players) ≡ false
      → create_player player_id user_id new_player.username default_starting_coins db
        ≡ (ok new_player, record db { players = insert user_id new_player db.players })
  unfolding create_player
  create_player_succeeds db free = rw (free, create_player) refl

  pub register_succeeds :
      (db : Db)
      → CanRegister db
      → register c call text user_id player_id password_hash input db ≡ (
        ok (record {
          user = new_user;
          player = new_player;
          tokens = issued c call user_id player_id (normalize_username text input.username);
        }),
        registered db,
      )
  unfolding register
  register_succeeds db can =
      let db₁ : Db = record db { users = insert user_id new_user db.users } in
      let db₂ : Db = record db₁ { players = insert user_id new_player db.players } in
      ground (
        arith,
        can.email,
        can.username,
        create_user_succeeds db can,
        create_player_succeeds db₁ can.player,
        issue_tokens_succeeds c call user_id player_id new_player.username db₂ can.unused,
      )

  registered-find_by_email :
      (db : Db) → CanRegister db → find_by_email new_user.email (registered db) ≡ some new_user
  unfolding find_by_email
  registered-find_by_email db can =
      find?-insert (λ u. u.email == new_user.email) user_id new_user db.users can.email
        (ground arith)

  pub registered-find_player : (db : Db) → find_player user_id (registered db) ≡ some new_player
  unfolding find_player
  registered-find_player db = lookup-insert_self user_id new_player db.players

  -- a login of the new user, in a later call
  pub login_succeeds :
      (db : Db) (later : Call) (email password : Key)
      → CanRegister db
      → normalize_email text email ≡ normalize_email text input.email
      → c.compare password password_hash ≡ true
      → lookup (digest c later user_id) (registered db).tokens ≡ none
      → login c later text email password (registered db) ≡ (
        ok (record {
          user = new_user;
          player = new_player;
          tokens = issued c later user_id player_id (normalize_username text input.username);
        }),
        record (registered db) {
          tokens =
              insert (digest c later user_id) (token_row c later user_id) (registered db).tokens;
        },
      )
  unfolding login verify_password_with_timing_pad
  login_succeeds db later email password can same matches unused = ground (
    arith,
    same,
    matches,
    registered-find_by_email db can,
    registered-find_player db,
    issue_tokens_succeeds c later user_id player_id new_player.username (registered db) unused,
  )
