-- ===== src/Auth/Revocation.antt =====
-- Revoked refresh tokens, under every request to the service.
use realtime_game_server.Base.{
  ℕ, ◌≡◌, refl, Bool, true, false, not, Option, none, some, List, [], ◌∷◌, inl, inr, arith, Key,
  Option-cases,
}
use realtime_game_server.Base.Dict.{Dict, lookup, lookup-insert}
use realtime_game_server.Base.Action.Keeps.{Keeps, Keeps-gets, Keeps-bind, keeps_rules}
use realtime_game_server.Auth.Store.{
  Db, RefreshToken, create_user, create_player, create_token, revoke, is_active, revoke_if_active,
  revoked_for, revoke_each, revoke_all_for_user,
}
use realtime_game_server.Auth.Tokens.{Crypto, hash_token}
use realtime_game_server.Auth.Service
use realtime_game_server.Auth.Service.{Call, Strings, RegisterInput, issue_tokens, discard}

abbrev revoked_opt : ℕ → Key → Option RefreshToken → Option RefreshToken
revoked_opt now user_id none = none
revoked_opt now user_id (some token) = some (revoked_for now user_id token)

pub lookup-revoke_each :
    (now : ℕ) (user_id h : Key) (tokens : Dict RefreshToken)
    → lookup h (revoke_each now user_id tokens) ≡ revoked_opt now user_id (lookup h tokens)
unfolding lookup revoke_each
lookup-revoke_each now user_id h [] = refl
lookup-revoke_each now user_id h ((j, token) ∷ tokens) =
    ground (arith, lookup-revoke_each now user_id h tokens)

-- The token with hash `h` is known and revoked.
abbrev pub is_revoked : Option RefreshToken → Bool
is_revoked none = false
is_revoked (some token) = not (is_active token)

abbrev pub Revoked : Key → Db → Type 0
Revoked h db = is_revoked (lookup h db.tokens) ≡ true

abbrev token_row : Key → Key → ℕ → RefreshToken
token_row u th e = record { user_id = u; token_hash = th; expires_at = e; revoked_at = none }

module _ (h : Key) where
  create_token-Keeps : (u th : Key) (e : ℕ) → Keeps (Revoked h) (create_token u th e)
  unfolding create_token
  create_token-Keeps u th e = record {
    at = λ db r. ground (arith, lookup-insert th h (token_row u th e) db.tokens);
  }

  create_user-Keeps : (i e u p : Key) → Keeps (Revoked h) (create_user i e u p)
  unfolding create_user
  create_user-Keeps i e u p = record { at = λ db r. ground arith }

  create_player-Keeps : (i u n : Key) (coins : ℕ) → Keeps (Revoked h) (create_player i u n coins)
  unfolding create_player
  create_player-Keeps i u n coins = record { at = λ db r. ground arith }

  revoke-Keeps : (now : ℕ) (th : Key) → Keeps (Revoked h) (revoke now th)
  unfolding revoke
  revoke-Keeps now th = record {
    at = λ db r. elim (Option-cases (lookup th db.tokens)) [
      | inl absent ↦ rw (absent, revoke) r
      | inr (token, found) ↦
          rw (found, revoke)
            (ground (arith, lookup-insert th h (record token { revoked_at = some now }) db.tokens))
    ];
  }

  revoke_if_active-Keeps : (now : ℕ) (th : Key) → Keeps (Revoked h) (revoke_if_active now th)
  unfolding revoke_if_active
  revoke_if_active-Keeps now th = record {
    at = λ db r. elim (Option-cases (lookup th db.tokens)) [
      | inl absent ↦ rw (absent, revoke_if_active) r
      | inr (token, found) ↦
          rw (found, revoke_if_active)
            (ground (arith, lookup-insert th h (record token { revoked_at = some now }) db.tokens))
    ];
  }

  revoke_all_for_user-Keeps : (now : ℕ) (u : Key) → Keeps (Revoked h) (revoke_all_for_user now u)
  unfolding revoke_all_for_user
  revoke_all_for_user-Keeps now u = record {
    at = λ db r. ground (arith, lookup-revoke_each now u h db.tokens);
  }

ruleset store_rules = (
  keeps_rules, create_token-Keeps, create_user-Keeps, create_player-Keeps, revoke-Keeps,
  revoke_if_active-Keeps, revoke_all_for_user-Keeps,
)

module _ (c : Crypto) (call : Call) (h : Key) where
  pub issue_tokens-Keeps : (u p n : Key) → Keeps (Revoked h) (issue_tokens c call u p n)
  unfolding issue_tokens
  issue_tokens-Keeps u p n = search store_rules

  register-Keeps :
      (text : Strings) (u p pw : Key) (input : RegisterInput)
      → Keeps (Revoked h) (Service.register c call text u p pw input)
  unfolding Service.register
  register-Keeps text u p pw input = search (store_rules, issue_tokens-Keeps) depth 20

  refresh-Keeps : (t : Key) → Keeps (Revoked h) (Service.refresh c call t)
  unfolding Service.refresh
  refresh-Keeps t = search (store_rules, issue_tokens-Keeps) depth 20

  login-Keeps : (text : Strings) (e pw : Key) → Keeps (Revoked h) (Service.login c call text e pw)
  unfolding Service.login
  login-Keeps text e pw = search (store_rules, issue_tokens-Keeps) depth 20

  discard-Keeps :
      (u th : Key) (found : Option RefreshToken) → Keeps (Revoked h) (discard c call u th found)
  unfolding discard
  discard-Keeps u th none = search store_rules
  discard-Keeps u th (some stored) = search store_rules

  logout-Keeps : (u t : Key) → Keeps (Revoked h) (Service.logout c call u t)
  unfolding Service.logout
  logout-Keeps u t = Keeps-bind _ _ (Keeps-gets _) (λ found. discard-Keeps u (hash_token c t) found)

  logout_all-Keeps : (u : Key) → Keeps (Revoked h) (Service.logout_all c call u)
  unfolding Service.logout_all
  logout_all-Keeps u = search store_rules

-- A request to the service, with what the call reads of its surroundings.
pub data Request : Type 0 where
  register : Call → Strings → (user_id player_id password_hash : Key) → RegisterInput → Request
  login : Call → Strings → (email password : Key) → Request
  refresh : Call → (refresh_token : Key) → Request
  logout : Call → (user_id refresh_token : Key) → Request
  logout_all : Call → (user_id : Key) → Request

module _ (c : Crypto) where
  pub perform : Request → Db → Db
  perform (register call text u p pw input) db = (Service.register c call text u p pw input db).1
  perform (login call text e pw) db = (Service.login c call text e pw db).1
  perform (refresh call t) db = (Service.refresh c call t db).1
  perform (logout call u t) db = (Service.logout c call u t db).1
  perform (logout_all call u) db = (Service.logout_all c call u db).1

  pub run : List Request → Db → Db
  run [] db = db
  run (r ∷ rs) db = run rs (perform r db)

  pub perform-Revoked : (h : Key) (r : Request) (db : Db) → Revoked h db → Revoked h (perform r db)
  unfolding perform
  perform-Revoked h (register call text u p pw input) =
      (register-Keeps c call h text u p pw input).at
  perform-Revoked h (login call text e pw) = (login-Keeps c call h text e pw).at
  perform-Revoked h (refresh call t) = (refresh-Keeps c call h t).at
  perform-Revoked h (logout call u t) = (logout-Keeps c call h u t).at
  perform-Revoked h (logout_all call u) = (logout_all-Keeps c call h u).at

  -- Whatever requests follow, a revoked token stays revoked.
  pub run-Revoked : (h : Key) (rs : List Request) (db : Db) → Revoked h db → Revoked h (run rs db)
  unfolding run
  run-Revoked h [] db r = r
  run-Revoked h (q ∷ rs) db r = run-Revoked h rs (perform q db) (perform-Revoked h q db r)
