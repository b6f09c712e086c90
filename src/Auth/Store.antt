-- ===== src/Auth/Store.antt =====
-- The tables of src/infrastructure/database/prisma-refresh-token-repository.ts,
-- prisma-user-repository.ts and prisma-player-repository.ts, as the auth service uses them. A refresh
-- token stands under its hash, which is unique; its row id, by which the code updates the row that it
-- found by the hash, is left out.
use realtime_game_server.Base.{
  ℕ, Bool, true, false, Option, none, some, [], ◌∷◌, ◌&&◌, Key, ◌==◌, if◌then◌else◌, is_some, any,
  find?, not,
}
use realtime_game_server.Base.Dict.{Dict, lookup, insert, values}
use realtime_game_server.Base.Action.{unexpected, Action, ok, err}

pub record RefreshToken : Type 0 where
  pub user_id : Key
  pub token_hash : Key
  pub expires_at : ℕ
  pub revoked_at : Option ℕ

pub record User : Type 0 where
  pub id : Key
  pub email : Key
  pub username : Key
  pub password_hash : Key

pub record Player : Type 0 where
  pub id : Key
  pub user_id : Key
  pub username : Key
  pub coins : ℕ
  pub experience : ℕ
  pub level : ℕ

-- users under their id, players under the id of their user; a player's level and coins here are those
-- it starts with, what changes them is in Player and Economy, and `current` of Api/Routes reads those
pub record Db : Type 0 where
  pub users : Dict User
  pub players : Dict Player
  pub tokens : Dict RefreshToken

-- `UserRepository.findByEmail` and `findByUsername`
unfoldable pub find_by_email : Key → Db → Option User
find_by_email email db = find? (λ u. u.email == email) (values db.users)

unfoldable pub find_by_username : Key → Db → Option User
find_by_username username db = find? (λ u. u.username == username) (values db.users)

-- `UserRepository.create`: email and username are unique columns
unfoldable pub create_user : Key → Key → Key → Key → Action Db User
create_user id email username password_hash db =
    let user : User = record {
      id = id;
      email = email;
      username = username;
      password_hash = password_hash;
    } in
    if is_some (find_by_email email db)
    then (err (unexpected "P2002"), db)
    else if is_some (find_by_username username db)
    then (err (unexpected "P2002"), db)
    else (ok user, record db { users = insert id user db.users })

-- `PlayerRepository.create`: the username is a unique column
unfoldable pub create_player : Key → Key → Key → ℕ → Action Db Player
create_player id user_id username coins db =
    let player : Player = record {
      id = id;
      user_id = user_id;
      username = username;
      coins = coins;
      experience = 0;
      level = 1;
    } in
    if any (λ p. p.username == username) (values db.players)
    then (err (unexpected "P2002"), db)
    else (ok player, record db { players = insert user_id player db.players })

-- `PlayerRepository.findByUserId`
unfoldable pub find_player : Key → Db → Option Player
find_player user_id db = lookup user_id db.players

-- `RefreshTokenRepository.findByTokenHash`
unfoldable pub find_by_token_hash : Key → Db → Option RefreshToken
find_by_token_hash token_hash db = lookup token_hash db.tokens

-- `RefreshTokenRepository.create`
unfoldable pub create_token : Key → Key → ℕ → Action Db RefreshToken
create_token user_id token_hash expires_at db =
    let token : RefreshToken = record {
      user_id = user_id;
      token_hash = token_hash;
      expires_at = expires_at;
      revoked_at = none;
    } in
    if is_some (lookup token_hash db.tokens)
    then (err (unexpected "P2002"), db)
    else (ok token, record db { tokens = insert token_hash token db.tokens })

-- `RefreshTokenRepository.revoke`, which writes the time also over an older one
unfoldable pub revoke : ℕ → Key → Action Db (Unit {0})
revoke now token_hash db = elim (lookup token_hash db.tokens) [
  | none ↦ (err (unexpected "P2025"), db)
  | some token ↦ (
    ok tt,
    record db { tokens = insert token_hash (record token { revoked_at = some now }) db.tokens },
  )
]

abbrev pub is_active : RefreshToken → Bool
is_active token = not (is_some token.revoked_at)

-- `RefreshTokenRepository.revokeIfActive`: one `updateMany`, so no other call comes between the test
-- and the write
unfoldable pub revoke_if_active : ℕ → Key → Action Db Bool
revoke_if_active now token_hash db = elim (lookup token_hash db.tokens) [
  | none ↦ (ok false, db)
  | some token ↦
      if is_active token
      then (
        ok true,
        record db { tokens = insert token_hash (record token { revoked_at = some now }) db.tokens },
      )
      else (ok false, db)
]

abbrev pub revoked_for : ℕ → Key → RefreshToken → RefreshToken
revoked_for now user_id token =
    if token.user_id == user_id && is_active token
    then record token { revoked_at = some now }
    else token

unfoldable pub revoke_each : ℕ → Key → Dict RefreshToken → Dict RefreshToken
revoke_each now user_id [] = []
revoke_each now user_id ((h, token) ∷ tokens) =
    (h, revoked_for now user_id token) ∷ revoke_each now user_id tokens

-- `RefreshTokenRepository.revokeAllForUser`
unfoldable pub revoke_all_for_user : ℕ → Key → Action Db (Unit {0})
revoke_all_for_user now user_id db =
    (ok tt, record db { tokens = revoke_each now user_id db.tokens })
