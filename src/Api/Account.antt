-- ===== src/Api/Account.antt =====
-- A new account through the routes: it is registered, logs in and asks for what it has.
use realtime_game_server.Base.{◌≡◌, none, some, Key, true, ap, ◌∙◌, refl, arith}
use realtime_game_server.Base.Int.{pos}
use realtime_game_server.Base.Dict.{lookup, insert, lookup-insert_self}
use realtime_game_server.Base.Action.{ok}
use realtime_game_server.Game.Double.{Double}
use realtime_game_server.Auth.Store as Store
use realtime_game_server.Auth.Store.{find_player}
use realtime_game_server.Auth.Tokens.{
  AccessTokenPayload, TokenType, sign_access_token, verify_access_token,
}
use realtime_game_server.Auth.Service as Service
use realtime_game_server.Auth.Service.{
  RegisterInput, AuthResult, normalize_username, normalize_email, default_starting_coins,
}
use realtime_game_server.Auth.Account.{
  digest, token_row, issued, new_user, new_player, CanRegister, registered, register_succeeds,
  login_succeeds, registered-find_player,
}
use realtime_game_server.Player.{Profile, empty_equipment, get_profile, create_profile}
use realtime_game_server.Economy.{get_balance}
use realtime_game_server.Api.Answers.{
  answer_ok, on_auth_ok, on_players_ok, on_economy_ok, get_profile_ok, get_balance_ok,
}
use realtime_game_server.Api.Guard.{Headers, bearer, authenticate}
use realtime_game_server.Api.State.{
  World, Answer, Handler, Config, Draws, on_players, on_economy, auth_result, profile, coins,
  with_auth, on_auth,
}
use realtime_game_server.Api.Routes.{
  Request, AuthRequest, PlayerRequest, EconomyRequest, success, add_player_rows, register_user,
  login_user, current, route, auth_routes, player_routes, economy_routes, reply_of, serve,
}

module _ {W : Type 0} (config : Config W) (draws : Draws) (input : RegisterInput) where
  abbrev pub username : Key
  username = normalize_username config.strings input.username

  abbrev pub user : Store.User
  user =
      new_user config.crypto draws.call config.strings draws.user_id draws.player_id
        draws.password_hash input

  abbrev pub player : Store.Player
  player =
      new_player config.crypto draws.call config.strings draws.user_id draws.player_id
        draws.password_hash input

  -- what a call answers the new user
  abbrev pub result_of : Draws → AuthResult
  result_of now = record {
    user = user;
    player = player;
    tokens = issued config.crypto now.call draws.user_id draws.player_id username;
  }

  abbrev pub new_profile : Profile
  new_profile = record {
    id = draws.player_id;
    user_id = draws.user_id;
    username = username;
    experience = 0;
    level = 1;
    equipment = empty_equipment;
  }

  -- The registration finds the email and the name free, and its ids unused.
  abbrev pub CanOpen : World W → Type 0
  CanOpen w =
      CanRegister config.crypto draws.call config.strings draws.user_id draws.player_id
        draws.password_hash input w.auth
      × (find_player draws.user_id w.auth ≡ none)

  abbrev pub tables : Store.Db → Store.Db
  tables =
      registered config.crypto draws.call config.strings draws.user_id draws.player_id
        draws.password_hash input

  abbrev pub opened : World W → World W
  opened w = add_player_rows player (record w { auth = tables w.auth })

  register_user_succeeds :
      (w : World W)
      → CanOpen w
      → register_user config draws input w ≡ (ok (result_of draws), opened w)
  unfolding register_user
  register_user_succeeds w (can, fresh) = ground (
    arith,
    register_succeeds config.crypto draws.call config.strings draws.user_id draws.player_id
        draws.password_hash input w.auth can,
    registered-find_player config.crypto draws.call config.strings draws.user_id draws.player_id
        draws.password_hash input w.auth,
    fresh,
  )

  opened-profile :
      (w : World W) → lookup draws.player_id (opened w).players.players ≡ some new_profile
  unfolding create_profile
  opened-profile w = lookup-insert_self draws.player_id new_profile w.players.players

  opened-balance :
      (w : World W)
      → lookup draws.player_id (opened w).economy.coins ≡ some (pos default_starting_coins)
  opened-balance w = lookup-insert_self draws.player_id _ w.economy.coins

  -- the tables have the new player as the registration answered it
  current_result :
      (w : World W) (later : Draws) → current (opened w) (result_of later) ≡ result_of later
  current_result w later = rw (opened-balance w, opened-profile w) refl

  module _ ⦃d : Double W⦄ (headers : Headers) where
    pub serve-register :
        (w : World W)
        → CanOpen w
        → serve config draws headers (Request.auth (AuthRequest.register (some input))) w
          ≡ (success 201 (auth_result (result_of draws)), opened w)
    unfolding serve route auth_routes reply_of
    serve-register w can =
        ap (λ (r : Answer × World W). (reply_of r.0, r.1))
          (answer_ok 201 auth_result (register_user config draws input) w (opened w)
            (result_of draws) (register_user_succeeds w can))

    -- the world after a login of the new user
    abbrev pub logged_in : Draws → World W → World W
    logged_in later w = record (opened w) {
      auth = record (tables w.auth) {
        tokens =
            insert (digest config.crypto later.call draws.user_id)
              (token_row config.crypto later.call draws.user_id) (tables w.auth).tokens;
      };
    }

    pub serve-login :
        (w : World W) (later : Draws) (email password : Key)
        → CanOpen w
        → normalize_email config.strings email ≡ normalize_email config.strings input.email
        → config.crypto.compare password draws.password_hash ≡ true
        → lookup (digest config.crypto later.call draws.user_id) (tables w.auth).tokens ≡ none
        → serve config later headers
            (Request.auth
              (AuthRequest.login (some (record { email = email; password = password }))))
            (opened w)
          ≡ (success 200 (auth_result (result_of later)), logged_in later w)
    unfolding serve route auth_routes login_user reply_of
    serve-login w later email password (can, _) same matches unused =
        let m = Service.login config.crypto later.call config.strings email password in
        let logged =
          login_succeeds config.crypto draws.call config.strings draws.user_id draws.player_id
            draws.password_hash input w.auth later.call email password can same matches unused in
        let body = λ (r : AuthResult). auth_result (current (opened w) r) in
        ap (λ (r : Answer × World W). (reply_of r.0, r.1))
          (answer_ok 200 body (on_auth m) (opened w) (logged_in later w) (result_of later)
            (on_auth_ok m (opened w) (result_of later) (logged_in later w).auth logged))
        ∙ ap (λ (r : AuthResult). (success 200 (auth_result r), logged_in later w))
            (current_result w later)

  -- what an access token of the new user holds
  abbrev pub claims : AccessTokenPayload
  claims = record {
    user_id = draws.user_id;
    player_id = draws.player_id;
    username = username;
    type = TokenType.access;
  }

  -- the headers of a client that was given the answer of a call
  abbrev pub bearing : Draws → Headers
  bearing now = record {
    authorization = some (bearer (result_of now).tokens.access_token);
    admin_key = none;
  }

  module _ ⦃d : Double W⦄
      (verifies : config.crypto.jwt_verify_access (config.crypto.sign_access claims)
        ≡ some claims) where
    bearing-authenticate : (now : Draws) → authenticate config.crypto (bearing now) ≡ ok claims
    unfolding authenticate verify_access_token sign_access_token
    bearing-authenticate now = rw (verifies, authenticate, verify_access_token) refl

    with_auth_ok :
        (now : Draws) (handler : AccessTokenPayload → Handler W) (w : World W)
        → with_auth config.crypto (bearing now) handler w ≡ handler claims w
    with_auth_ok now handler w = rw (bearing-authenticate now, with_auth) refl

    pub serve-me :
        (now at : Draws) (w : World W)
        → lookup draws.player_id w.players.players ≡ some new_profile
        → serve config at (bearing now) (Request.player PlayerRequest.me) w
          ≡ (success 200 (profile new_profile), w)
    unfolding serve route player_routes reply_of
    serve-me now at w found =
        let m = get_profile draws.player_id in
        rw (with_auth_ok now, serve, route, player_routes)
          (ap (λ (r : Answer × World W). (reply_of r.0, r.1))
            (answer_ok 200 profile (on_players m) w w new_profile
              (on_players_ok m w new_profile (get_profile_ok _ _ w.players found))))

    pub serve-balance :
        (now at : Draws) (w : World W)
        → lookup draws.player_id w.economy.coins ≡ some (pos default_starting_coins)
        → serve config at (bearing now) (Request.economy EconomyRequest.balance) w
          ≡ (success 200 (coins draws.player_id (pos default_starting_coins)), w)
    unfolding serve route economy_routes reply_of
    serve-balance now at w found =
        let m = get_balance draws.player_id in
        let n = pos default_starting_coins in
        rw (with_auth_ok now, serve, route, economy_routes)
          (ap (λ (r : Answer × World W). (reply_of r.0, r.1))
            (answer_ok 200 (coins draws.player_id) (on_economy m) w w n
              (on_economy_ok m w n (get_balance_ok _ _ w.economy found))))

    -- A registration with an email and a name that are free, and with unused ids, is answered by
    -- 201 with the new user, its player and tokens; a login after it, with the same email as
    -- normalized and a password that compares equal to the stored hash, is answered by 200 with the
    -- same user and player and new tokens; and the access token of the login, if it verifies as
    -- what was signed, gets the new profile (level 1, no experience, nothing equipped) and a
    -- balance of 100 coins, which leave the server as it is.
    pub register-login-me :
        (w : World W) (headers : Headers) (later at : Draws) (email password : Key)
        → CanOpen w
        → normalize_email config.strings email ≡ normalize_email config.strings input.email
        → config.crypto.compare password draws.password_hash ≡ true
        → lookup (digest config.crypto later.call draws.user_id) (tables w.auth).tokens ≡ none
        → let account =
            serve config draws headers (Request.auth (AuthRequest.register (some input))) w in
          let entered =
            serve config later headers
              (Request.auth
                (AuthRequest.login (some (record { email = email; password = password }))))
              account.1 in
          (account.0 ≡ success 201 (auth_result (result_of draws)))
          × (entered.0 ≡ success 200 (auth_result (result_of later)))
          × (serve config at (bearing later) (Request.player PlayerRequest.me) entered.1
              ≡ (success 200 (profile new_profile), entered.1))
          × (serve config at (bearing later) (Request.economy EconomyRequest.balance) entered.1
              ≡ (success 200 (coins draws.player_id (pos default_starting_coins)), entered.1))
    register-login-me w headers later at email password can same matches unused =
        let after = logged_in headers later w in
        rw
          (
            serve-register headers w can,
            serve-login headers w later email password can same matches unused,
          )
          (
            refl,
            refl,
            serve-me later at after (opened-profile w),
            serve-balance later at after (opened-balance w),
          )
