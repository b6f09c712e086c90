-- ===== src/Auth/Race.antt =====
-- Refreshes that overlap: `AuthService.refresh` of src/application/services/auth-service.ts cut at its
-- `await`s. Each stage is one call of the database, with the code up to the next one.
pub mod Once
use realtime_game_server.Base.{
  ℕ, ◌≡◌, refl, Bool, true, false, not, Option, none, some, Key, ◌==◌, ltb, if◌then◌else◌, is_some,
  arith, zero, suc, List, [], ◌∷◌, Option-cases, inl, inr, Bool-cases,
}
use realtime_game_server.Base.Dict.{lookup, insert}
use realtime_game_server.Base.Action.{Result, ok, err, unauthorized}
use realtime_game_server.Auth.Store.{
  Db, Player, RefreshToken, find_player, find_by_token_hash, is_active, revoke_if_active,
  revoke_all_for_user,
}
use realtime_game_server.Auth.Tokens.{Crypto, RefreshTokenPayload, hash_token, verify_refresh_token}
use realtime_game_server.Auth.Service.{Call, AuthTokens, issue_tokens, refresh}

-- what a refresh waits for
pub data Stage : Type 0 where
  begin : Stage
  mark : RefreshTokenPayload → RefreshToken → Stage
  family : (user_id : Key) → Stage
  owner : RefreshTokenPayload → Stage
  issue : RefreshTokenPayload → Player → Stage
  finished : Result AuthTokens → Stage

module _ (c : Crypto) (call : Call) (t : Key) where
  unfoldable pub advance : Stage → Db → Stage × Db
  advance begin db = elim (verify_refresh_token c t) [
    | none ↦ (finished (err (unauthorized "Invalid refresh token")), db)
    | some payload ↦ elim (find_by_token_hash (hash_token c t) db) [
      | none ↦ (finished (err (unauthorized "Refresh token revoked or expired")), db)
      | some stored ↦
          if ltb stored.expires_at call.now
          then (finished (err (unauthorized "Refresh token revoked or expired")), db)
          else if not (stored.user_id == payload.user_id)
          then (finished (err (unauthorized "Invalid refresh token")), db)
          else (mark payload stored, db)
    ]
  ]
  advance (mark payload stored) db =
      let (marked, db') = revoke_if_active call.now (hash_token c t) db in
      elim marked [
        | ok done ↦ (if done then owner payload else family stored.user_id, db')
        | err e ↦ (finished (err e), db')
      ]
  advance (family user_id) db = (
    finished (err (unauthorized "Refresh token reuse detected")),
    (revoke_all_for_user call.now user_id db).1,
  )
  advance (owner payload) db = elim (find_player payload.user_id db) [
    | none ↦ (finished (err (unauthorized "Invalid refresh token")), db)
    | some player ↦ (issue payload player, db)
  ]
  advance (issue payload player) db =
      let (tokens, db') = issue_tokens c call payload.user_id player.id player.username db in
      (finished tokens, db')
  advance (finished r) db = (finished r, db)

  advance_by : ℕ → Stage × Db → Stage × Db
  advance_by zero s = s
  advance_by (suc n) s = advance_by n (advance s.0 s.1)

  -- A refresh that nothing interrupts ends within four of its steps, with the result and the
  -- database of the whole call.
  advance_by-refresh :
      (db : Db)
      → advance_by 4 (begin, db) ≡ (finished (refresh c call t db).0, (refresh c call t db).1)
  unfolding advance_by advance refresh revoke_if_active revoke_all_for_user find_by_token_hash
  advance_by-refresh db = ground arith
