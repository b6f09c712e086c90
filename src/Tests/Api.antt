-- ===== src/Tests/Api.antt =====
-- The theorems on requests at a small server.
use realtime_game_server.Base.{
  if◌then◌else◌, ℕ, ◌≡◌, refl, Bool, true, false, ◌&&◌, ◌==◌, none, some, List, [], ◌∷◌, arith,
}
use realtime_game_server.Base.Int.{ℤ, pos}
use realtime_game_server.Base.Dict.{lookup, insert, values}
use realtime_game_server.Auth.Store.{find_player, find_by_email, find_by_username}
use realtime_game_server.Auth.Tokens.{
  Crypto, AccessTokenPayload, TokenType, create_refresh_token_pair,
}
use realtime_game_server.Gateway.Tables.{handle_connection-lobby}
use realtime_game_server.Gateway.Connect.{handle_connection}
use realtime_game_server.Api.Guard.{Headers, AdminKey}
use realtime_game_server.Api.State.{World, Config, Draws, auth_result, profile, coins}
use realtime_game_server.Api.Routes.{
  Request, AuthRequest, PlayerRequest, EconomyRequest, AdminRequest, success, serve,
}
use realtime_game_server.Api.Account.{
  CanOpen, claims, tables, result_of, bearing, new_profile, register-login-me,
}
use realtime_game_server.Auth.Account.{digest}
use realtime_game_server.Auth.Service.{RegisterInput, normalize_username}
use realtime_game_server.Api.Access.{Need, IsAllowed, IsRefused, serve_guarded}
use realtime_game_server.Api.Invariant.{IsServer}
use realtime_game_server.Api.Keeps.{AreFresh}
use realtime_game_server.Api.Reach.{empty, Step, Reach, Reach-IsServer}
use realtime_game_server.Tests.Fixed.{thousandths}

same_bytes : List ℕ → List ℕ → Bool
same_bytes [] [] = true
same_bytes [] (_ ∷ _) = false
same_bytes (_ ∷ _) [] = false
same_bytes (a ∷ as') (b ∷ bs) = a == b && same_bytes as' bs

same_bytes_eq : (a b : List ℕ) → same_bytes a b ≡ true → a ≡ b
unfolding same_bytes
same_bytes_eq [] [] h = refl
same_bytes_eq [] (_ ∷ _) h = absurd (ground arith)
same_bytes_eq (_ ∷ _) [] h = absurd (ground arith)
same_bytes_eq (a ∷ as') (b ∷ bs) h = ground (arith, same_bytes_eq as' bs)

abbrev payload : AccessTokenPayload
payload = record { user_id = 3; player_id = 1; username = 11; type = TokenType.access }

-- a token is the id of its user
abbrev crypto : Crypto
crypto = record {
  sign_access = λ p. p.user_id;
  sign_refresh = λ p. p.jti;
  jwt_verify_access = λ t. if t == 3 then some payload else none;
  jwt_verify_refresh = λ t. none;
  compare = λ password hash. true;
  sha256 = λ t. t;
}

abbrev config : Config ℤ
config = record {
  gateway = record {
    game = record {
      game_tick_rate = 20;
      max_move_speed = pos 12000;
      heartbeat_timeout_ms = 10_000;
    };
    ws_rate_limit_per_second = 2;
    ws_connect_rate_limit_per_minute = 60;
  };
  lobby = record { max_players_per_room = 8; max_players_text = "8" };
  crypto = crypto;
  strings = record { to_lower_case = λ s. s; trim = λ s. s };
  to_upper_case = λ s. s;
  admin_api_key = some (7 ∷ 8 ∷ []);
  timing_safe_equal = same_bytes;
  order_by = λ rows. rows;
}

abbrev draws : Draws
draws = record {
  call = record { now = 10; ttl = 1000; jti = 6 };
  user_id = 3;
  player_id = 1;
  password_hash = 50;
  room_id = 9;
  codes = λ k. k;
}

abbrev wrong_key : Headers
wrong_key = record { authorization = none; admin_key = some (AdminKey.one (7 ∷ 9 ∷ [])) }

abbrev grant : Request
grant = Request.admin (AdminRequest.credit (some 1) (some (record { amount = pos 5; reason = 4 })))

not-IsAllowed : ¬ IsAllowed config wrong_key Need.administrator
not-IsAllowed (b, bytes, key, given) = ground arith

serve_guarded_example :
    let after = serve config draws wrong_key grant (empty (λ p. p)) in
    IsRefused after.0 × (after.1 ≡ empty (λ p. p))
serve_guarded_example =
    serve_guarded config wrong_key draws (empty (λ p. p)) grant (λ a b e. same_bytes_eq a b)
      not-IsAllowed

-- a user connects and registers
abbrev registration : Request
registration = Request.auth (AuthRequest.register (some (record { email = 12; username = 11 })))

abbrev connected : World ℤ
connected =
    let w = empty (λ p. p) in
    record w { gateway = (handle_connection config.gateway 100 5 6 (some payload) w.gateway).world }

new_ids : AreFresh draws connected
unfolding lookup find_player
new_ids = record {
  user = refl;
  player = refl;
  room =
      rw (handle_connection-lobby config.gateway 100 0 5 6 (some payload) (empty (λ p. p)).gateway)
        refl;
}

new_socket : lookup 5 (empty {W = ℤ} (λ p. p)).gateway.sockets ≡ none
unfolding lookup
new_socket = refl

Reach-IsServer_example : IsServer (serve config draws wrong_key registration connected).1
Reach-IsServer_example =
    Reach-IsServer config (λ p. p)
      (Reach.next (Reach.next Reach.here (Step.connect 100 5 6 (some payload) new_socket))
        (Step.http draws wrong_key registration new_ids))

-- the user logs in later and asks for its profile and its coins
abbrev later : Draws
later = record draws { call = record { now = 900; ttl = 1000; jti = 7 } }

abbrev new_account : RegisterInput
new_account = record { email = 12; username = 11 }

can_open : CanOpen config draws new_account (empty (λ p. p))
unfolding find_by_email find_by_username find_player lookup values
can_open = (record { email = refl; username = refl; player = refl; unused = refl }, refl)

abbrev at_start : World ℤ
at_start = empty (λ p. p)

other_digest :
    lookup (digest crypto later.call 3) (tables config draws new_account at_start.auth).tokens
    ≡ none
unfolding lookup insert create_refresh_token_pair
other_digest = refl

claims_verify :
    crypto.jwt_verify_access (crypto.sign_access (claims config draws new_account))
    ≡ some (claims config draws new_account)
unfolding normalize_username
claims_verify = refl

register-login-me_example :
    let account = serve config draws wrong_key registration at_start in
    let entered =
      serve config later wrong_key
        (Request.auth (AuthRequest.login (some (record { email = 12; password = 8 }))))
        account.1 in
    (account.0 ≡ success 201 (auth_result (result_of config draws new_account draws)))
    × (entered.0 ≡ success 200 (auth_result (result_of config draws new_account later)))
    × (serve config later
          (bearing config draws new_account later)
          (Request.player PlayerRequest.me)
          entered.1
        ≡ (success 200 (profile (new_profile config draws new_account)), entered.1))
    × (serve config later
          (bearing config draws new_account later)
          (Request.economy EconomyRequest.balance)
          entered.1
        ≡ (success 200 (coins 1 (pos 100)), entered.1))
register-login-me_example =
    register-login-me config draws new_account claims_verify at_start wrong_key later later 12 8
      can_open refl refl other_digest
