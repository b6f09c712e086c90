-- ===== src/Auth/Rotation.antt =====
-- Rotation of refresh tokens.
use realtime_game_server.Base.{
  ◌+◌, ◌≡◌, ◌≢◌, true, false, none, some, List, inl, inr, arith, Key, ltb, Option-cases,
}
use realtime_game_server.Base.Dict.{lookup, insert, lookup-insert}
use realtime_game_server.Base.Action.{ok, err, unauthorized}
use realtime_game_server.Auth.Store.{
  Db, Player, RefreshToken, create_token, find_player, find_by_token_hash, is_active,
  revoke_if_active, revoke_all_for_user,
}
use realtime_game_server.Auth.Tokens.{
  Crypto, RefreshTokenPayload, hash_token, verify_refresh_token, sign_access_token,
  create_refresh_token_pair,
}
use realtime_game_server.Auth.Service.{Call, AuthTokens, issue_tokens, refresh}
use realtime_game_server.Auth.Revocation.{
  Revoked, issue_tokens-Keeps, lookup-revoke_each, Request, run, run-Revoked,
}

module _ (c : Crypto) (call : Call) (t : Key) (db : Db) where
  -- A token that is not known as active is refused.
  refresh-Revoked : (x : AuthTokens) → Revoked (hash_token c t) db → (refresh c call t db).0 ≢ ok x
  unfolding refresh find_by_token_hash revoke_if_active revoke_all_for_user
  refresh-Revoked x r h = ground arith

  -- A refresh that succeeds had a token that verifies, is known, not expired, of the same user and
  -- active.
  pub refresh_needs :
      (x : AuthTokens)
      → (refresh c call t db).0 ≡ ok x
      → (payload : RefreshTokenPayload) × (stored : RefreshToken) × (verify_refresh_token c t
          ≡ some payload)
        × (lookup (hash_token c t) db.tokens ≡ some stored)
        × (ltb stored.expires_at call.now ≡ false)
        × (stored.user_id ≡ payload.user_id)
        × (is_active stored ≡ true)
  unfolding refresh find_by_token_hash revoke_if_active revoke_all_for_user
  refresh_needs x h = elim (Option-cases (verify_refresh_token c t)) [
    | inl bad ↦ absurd (ground arith)
    | inr (payload, verified) ↦ elim (Option-cases (lookup (hash_token c t) db.tokens)) [
      | inl absent ↦ absurd (ground arith)
      | inr (stored, found) ↦
          (payload, stored, verified, found, ground arith, ground arith, ground arith)
    ]
  ]

  -- A refresh that succeeds leaves its token revoked.
  pub refresh_revokes :
      (x : AuthTokens)
      → (refresh c call t db).0 ≡ ok x
      → Revoked (hash_token c t) (refresh c call t db).1
  unfolding refresh find_by_token_hash revoke_if_active
  refresh_revokes x h =
      let (payload, stored, verified, found, fresh, owner, active) = refresh_needs x h in
      let key = hash_token c t in
      let used : RefreshToken = record stored { revoked_at = some call.now } in
      let db₁ : Db = record db { tokens = insert key used db.tokens } in
      let gone : Revoked key db₁ = ground (arith, lookup-insert key key used db.tokens) in
      elim (Option-cases (find_player payload.user_id db₁)) [
        | inl absent ↦ absurd (ground arith)
        | inr (player, known) ↦ ground (
          arith,
          (issue_tokens-Keeps c call key payload.user_id player.id player.username).at db₁ gone,
        )
      ]

  -- A refresh token that verifies, is known, not expired and its user's, but was revoked before, is
  -- a reuse: the call throws and every token of its user is revoked.
  pub refresh_reuse :
      (payload : RefreshTokenPayload) (stored : RefreshToken)
      → verify_refresh_token c t ≡ some payload
      → lookup (hash_token c t) db.tokens ≡ some stored
      → ltb stored.expires_at call.now ≡ false
      → stored.user_id ≡ payload.user_id
      → is_active stored ≡ false
      → ((refresh c call t db).0 ≡ err (unauthorized "Refresh token reuse detected"))
        × ((h : Key) (token : RefreshToken)
            → lookup h (refresh c call t db).1.tokens ≡ some token
            → token.user_id ≡ payload.user_id
            → is_active token ≡ false)
  unfolding refresh find_by_token_hash revoke_if_active revoke_all_for_user
  refresh_reuse payload stored verified found fresh owner used = (
    ground arith,
    (λ h token e own. ground (arith, lookup-revoke_each call.now stored.user_id h db.tokens)),
  )

  -- A verified token that is active, not expired and of a user with a player is rotated: the call
  -- answers new tokens, the old one is revoked and the new one is stored active, if the digest of
  -- the new one is not in use.
  pub refresh_rotates :
      (payload : RefreshTokenPayload) (stored : RefreshToken) (player : Player)
      → verify_refresh_token c t ≡ some payload
      → lookup (hash_token c t) db.tokens ≡ some stored
      → ltb stored.expires_at call.now ≡ false
      → stored.user_id ≡ payload.user_id
      → is_active stored ≡ true
      → find_player payload.user_id db ≡ some player
      → let pair = create_refresh_token_pair c call.now call.ttl call.jti payload.user_id in
        lookup pair.token_hash db.tokens ≡ none
        → ((refresh c call t db).0
            ≡ ok (record {
              access_token = sign_access_token c payload.user_id player.id player.username;
              refresh_token = pair.token;
            }))
          × Revoked (hash_token c t) (refresh c call t db).1
          × (lookup pair.token_hash (refresh c call t db).1.tokens
              ≡ some (record {
                user_id = payload.user_id;
                token_hash = pair.token_hash;
                expires_at = call.now + call.ttl;
                revoked_at = none;
              }))
  unfolding refresh find_by_token_hash revoke_if_active find_player issue_tokens create_token
      create_refresh_token_pair
  refresh_rotates payload stored player verified found fresh owner active known unused =
      let old = hash_token c t in
      let used : RefreshToken = record stored { revoked_at = some call.now } in
      let pair = create_refresh_token_pair c call.now call.ttl call.jti payload.user_id in
      let row : RefreshToken = record {
        user_id = payload.user_id;
        token_hash = pair.token_hash;
        expires_at = call.now + call.ttl;
        revoked_at = none;
      } in
      ground (
        arith,
        lookup-insert old old used db.tokens,
        lookup-insert old pair.token_hash used db.tokens,
        lookup-insert pair.token_hash old row (insert old used db.tokens),
        lookup-insert pair.token_hash pair.token_hash row (insert old used db.tokens),
      )

-- A refresh token works once: after a refresh that succeeded, no later refresh with the same token
-- succeeds, whatever requests come between and at whatever time.
pub refresh_once :
    (c : Crypto) (call call' : Call) (t : Key) (db : Db) (requests : List Request)
    (x y : AuthTokens)
    → (refresh c call t db).0 ≡ ok x
    → (refresh c call' t (run c requests (refresh c call t db).1)).0 ≢ ok y
refresh_once c call call' t db requests x y h =
    refresh-Revoked c call' t (run c requests (refresh c call t db).1) y (
      run-Revoked c (hash_token c t) requests (refresh c call t db).1
        (refresh_revokes c call t db x h))
