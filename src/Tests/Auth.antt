-- ===== src/Tests/Auth.antt =====
-- The theorems on tokens at a database with one user.
use realtime_game_server.Base.{
  ℕ, ◌≡◌, ◌≢◌, refl, ltb, true, false, none, some, [], ◌∷◌, Key, Option, List,
}
use realtime_game_server.Base.Dict.{lookup, insert}
use realtime_game_server.Base.Action.{ok, err, unauthorized}
use realtime_game_server.Auth.Store.{
  Db, Player, RefreshToken, is_active, find_by_token_hash, revoke_if_active, find_player,
  create_token,
}
use realtime_game_server.Auth.Tokens.{
  Crypto, RefreshTokenPayload, TokenType, verify_refresh_token, hash_token,
  create_refresh_token_pair, sign_access_token,
}
use realtime_game_server.Auth.Service.{Call, AuthTokens, refresh, issue_tokens}
use realtime_game_server.Auth.Revocation.{Request, Revoked, run}
use realtime_game_server.Auth.Race.{begin, finished, advance}
use realtime_game_server.Auth.Race.Once.{System, Calls, Step, Reach, resumed, refresh_race}
use realtime_game_server.Auth.Rotation.{refresh_needs, refresh_rotates, refresh_reuse, refresh_once}

-- a refresh token is its `jti`, an access token the id of its user, and a digest the text itself
abbrev payload : Key → RefreshTokenPayload
payload jti = record { user_id = 1; type = TokenType.refresh; jti = jti }

abbrev crypto : Crypto
crypto = record {
  sign_access = λ p. p.user_id;
  sign_refresh = λ p. p.jti;
  jwt_verify_access = λ t. none;
  jwt_verify_refresh = λ t. some (payload t);
  compare = λ password hash. true;
  sha256 = λ t. t;
}

abbrev row : Option ℕ → RefreshToken
row revoked_at = record { user_id = 1; token_hash = 5; expires_at = 100; revoked_at = revoked_at }

abbrev player_row : Player
player_row = record { id = 2; user_id = 1; username = 3; coins = 100; experience = 0; level = 1 }

abbrev database : Option ℕ → Db
database revoked_at = record {
  users = [];
  players = (1, player_row) ∷ [];
  tokens = (5, row revoked_at) ∷ [];
}

abbrev first : Call
first = record { now = 10; ttl = 1000; jti = 6 }

abbrev second : Call
second = record { now = 20; ttl = 1000; jti = 7 }

abbrev pair : AuthTokens
pair = record { access_token = 1; refresh_token = 6 }

abbrev pair' : AuthTokens
pair' = record { access_token = 1; refresh_token = 7 }

rotated : (refresh crypto first 5 (database none)).0 ≡ ok pair
unfolding refresh verify_refresh_token find_by_token_hash lookup hash_token revoke_if_active
    find_player issue_tokens create_token insert sign_access_token
rotated = refl

-- between the two calls the user rotates the new token and logs out everywhere
abbrev between : List Request
between = Request.refresh second 6 ∷ Request.logout_all second 1 ∷ []

refresh_once_example :
    (refresh crypto second 5 (run crypto between (refresh crypto first 5 (database none)).1)).0
    ≢ ok pair'
refresh_once_example = refresh_once crypto first second 5 (database none) between pair pair' rotated

verified : verify_refresh_token crypto 5 ≡ some (payload 5)
unfolding verify_refresh_token
verified = refl

known :
    (revoked_at : Option ℕ)
    → lookup (hash_token crypto 5) (database revoked_at).tokens ≡ some (row revoked_at)
unfolding hash_token lookup
known revoked_at = refl

refresh_reuse_example :
    let after = refresh crypto first 5 (database (some 8)) in
    (after.0 ≡ err (unauthorized "Refresh token reuse detected"))
    × ((h : Key) (token : RefreshToken)
        → lookup h after.1.tokens ≡ some token
        → token.user_id ≡ 1
        → is_active token ≡ false)
refresh_reuse_example =
    refresh_reuse crypto first 5 (database (some 8)) (payload 5) (row (some 8)) verified
      (known (some 8)) refl refl refl

refresh_needs_example :
    (p : RefreshTokenPayload) × (stored : RefreshToken) × (verify_refresh_token crypto 5 ≡ some p)
    × (lookup (hash_token crypto 5) (database none).tokens ≡ some stored)
    × (ltb stored.expires_at 10 ≡ false)
    × (stored.user_id ≡ p.user_id)
    × (is_active stored ≡ true)
refresh_needs_example = refresh_needs crypto first 5 (database none) pair rotated

player_known : find_player 1 (database none) ≡ some player_row
unfolding find_player lookup
player_known = refl

unused :
    lookup (create_refresh_token_pair crypto 10 1000 6 1).token_hash (database none).tokens ≡ none
unfolding create_refresh_token_pair hash_token lookup
unused = refl

refresh_rotates_example :
    let new_pair = create_refresh_token_pair crypto 10 1000 6 1 in
    ((refresh crypto first 5 (database none)).0
      ≡ ok (record {
        access_token = sign_access_token crypto 1 2 3;
        refresh_token = new_pair.token;
      }))
    × Revoked (hash_token crypto 5) (refresh crypto first 5 (database none)).1
    × (lookup new_pair.token_hash (refresh crypto first 5 (database none)).1.tokens
        ≡ some (record {
          user_id = 1;
          token_hash = new_pair.token_hash;
          expires_at = 1010;
          revoked_at = none;
        }))
refresh_rotates_example =
    refresh_rotates crypto first 5 (database none) (payload 5) (row none) player_row verified
      (known none) refl refl refl player_known unused

-- every refresh is given the same token
abbrev overlapping : Calls
overlapping = record { call = λ i. first; token = λ i. 5 }

abbrev begun : System
begun = record { db = database none; stages = λ i. begin }

-- the refreshes resumed, the last one first
resumed_all : List ℕ → System
resumed_all [] = begun
resumed_all (i ∷ before) = resumed crypto overlapping i (resumed_all before)

resumed_all-Reach : (order : List ℕ) → Reach crypto overlapping (database none) (resumed_all order)
unfolding resumed_all
resumed_all-Reach [] = Reach.start
resumed_all-Reach (i ∷ before) = Reach.later (resumed_all-Reach before) (Step.resume i)

abbrev order : List ℕ
order = 1 ∷ 0 ∷ 1 ∷ 0 ∷ 1 ∷ 0 ∷ 1 ∷ 0 ∷ []

won : (resumed_all order).stages 0 ≡ finished (ok pair)
unfolding resumed_all advance verify_refresh_token find_by_token_hash lookup hash_token
    revoke_if_active find_player insert issue_tokens create_token
    realtime_game_server.Auth.Store.revoke_all_for_user realtime_game_server.Auth.Store.revoke_each
    sign_access_token
won = refl

refresh_race_example : ◌≡◌ {A = ℕ} 0 0
refresh_race_example =
    refresh_race crypto overlapping 0 0 pair pair (resumed_all-Reach order) refl won won
