-- ===== src/Api/Access.antt =====
-- Which requests are let through to the services.
use realtime_game_server.Base.{
  ℕ, ◌≡◌, ◌⊎◌, refl, ap, Bool, true, false, Option, none, some, List, [], ◌∷◌, Key, length,
  Option-cases, arith, Bool-cases, inl, inr, String, ⊤,
}
use realtime_game_server.Base.Action.{Error, err, unauthorized, forbidden}
use realtime_game_server.Game.Double.{Double}
use realtime_game_server.Auth.Tokens.{
  Crypto, AccessTokenPayload, TokenType, is_access, verify_access_token,
}
use realtime_game_server.Api.Errors.{thrown, error_handler}
use realtime_game_server.Api.Guard.{
  Headers, Authorization, bearer, AdminKey, one, several, authenticate, safe_equal_string,
  compare_admin_key, assert_admin_key,
}
use realtime_game_server.Api.State.{World, Config, Draws, failed, with_auth, with_admin}
use realtime_game_server.Api.Routes.{
  Request, auth, lobby, player, economy, inventory, leaderboard, admin, AuthRequest, AdminRequest,
  Reply, success, failure, auth_routes, lobby_routes, player_routes, economy_routes,
  inventory_routes, admin_routes, route, reply_of, serve,
}

pub data Need : Type 0 where
  anyone user administrator : Need

-- what each route asks of who sends the request
abbrev pub need : Request → Need
need (auth (AuthRequest.register _)) = anyone
need (auth (AuthRequest.login _)) = anyone
need (auth (AuthRequest.refresh _)) = anyone
need (auth (AuthRequest.logout _)) = user
need (auth AuthRequest.logout_all) = user
need (lobby _) = user
need (player _) = user
need (economy _) = user
need (inventory _) = user
need (leaderboard _) = anyone
need (admin _) = administrator

-- `unauthorized` or `forbidden`
abbrev IsRefusal : Error → Type 0
IsRefusal e = ((error_handler (thrown e)).status ≡ 401) ⊎ ((error_handler (thrown e)).status ≡ 403)

-- the reply has the status 401 or 403
abbrev pub IsRefused : Reply → Type 0
IsRefused (success _ _) = ⊥
IsRefused (failure e) = (e.status ≡ 401) ⊎ (e.status ≡ 403)

-- `timingSafeEqual` compares texts of equal length.
abbrev pub IsEquality : (List ℕ → List ℕ → Bool) → Type 0
IsEquality timing_safe_equal =
    (a b : List ℕ) → length a ≡ length b → timing_safe_equal a b ≡ true → a ≡ b

unauthorized_status : (m : String) → (error_handler (thrown (unauthorized m))).status ≡ 401
unfolding error_handler
unauthorized_status m = refl

forbidden_status : (m : String) → (error_handler (thrown (forbidden m))).status ≡ 403
unfolding error_handler
forbidden_status m = refl

is_access_cases : (t : TokenType) → (t ≡ TokenType.access) ⊎ (is_access t ≡ false)
is_access_cases TokenType.access = inl refl
is_access_cases TokenType.refresh = inr refl
is_access_cases TokenType.other = inr refl

verify_access_token_cases :
    (c : Crypto) (token : Key)
    → ((payload : AccessTokenPayload) × (c.jwt_verify_access token ≡ some payload)
        × (payload.type ≡ TokenType.access))
      ⊎ (verify_access_token c token ≡ none)
unfolding verify_access_token
verify_access_token_cases c token = elim (Option-cases (c.jwt_verify_access token)) [
  | inl bad ↦ inr (ground arith)
  | inr (payload, good) ↦ elim (is_access_cases payload.type) [
    | inl fits ↦ inl (payload, good, fits)
    | inr apart ↦ inr (ground arith)
  ]
]

abbrev disabled : Error
disabled =
    forbidden "Admin mutations are disabled. Set ADMIN_API_KEY to enable privileged endpoints."

-- the right key, or a refusal
compare_admin_key_cases :
    (tse : List ℕ → List ℕ → Bool) (k : ℕ) (key : List ℕ) (provided : Option AdminKey)
    → IsEquality tse
    → (provided ≡ some (one (k ∷ key)))
      ⊎ ((e : Error) × (compare_admin_key tse (k ∷ key) provided ≡ err e) × IsRefusal e)
unfolding compare_admin_key safe_equal_string
compare_admin_key_cases tse k key none h = inr (_, refl, inl (unauthorized_status _))
compare_admin_key_cases tse k key (some (several keys)) h =
    inr (_, refl, inl (unauthorized_status _))
compare_admin_key_cases tse k key (some (one [])) h = inr (_, refl, inl (unauthorized_status _))
compare_admin_key_cases tse k key (some (one (b ∷ bytes))) h =
    elim (Bool-cases (safe_equal_string tse (b ∷ bytes) (k ∷ key))) [
      | inl same ↦
          inl (ap (λ l. some (one l)) (h (b ∷ bytes) (k ∷ key) (ground arith) (ground arith)))
      | inr apart ↦ inr (forbidden "Invalid admin key", ground arith, inr (forbidden_status _))
    ]

module _ {W : Type 0} (config : Config W) (headers : Headers) where
  -- A user has a bearer token that the library verifies, of the type `access`; an administrator has
  -- the key that is configured, which is not empty.
  abbrev pub IsAllowed : Need → Type 0
  IsAllowed anyone = ⊤
  IsAllowed user =
      (token : Key) × (payload : AccessTokenPayload) × (headers.authorization ≡ some (bearer token))
      × (config.crypto.jwt_verify_access token ≡ some payload)
      × (payload.type ≡ TokenType.access)
  IsAllowed administrator =
      (b : ℕ) × (bytes : List ℕ) × (config.admin_api_key ≡ some (b ∷ bytes))
      × (headers.admin_key ≡ some (one (b ∷ bytes)))

  authenticate_cases :
      IsAllowed user ⊎ ((e : Error) × (authenticate config.crypto headers ≡ err e) × IsRefusal e)
  unfolding authenticate
  authenticate_cases = elim (Option-cases headers.authorization) [
    | inl absent ↦
        inr (unauthorized "Missing bearer token", ground arith, inl (unauthorized_status _))
    | inr (Authorization.other, found) ↦
        inr (unauthorized "Missing bearer token", ground arith, inl (unauthorized_status _))
    | inr (bearer token, found) ↦ elim (verify_access_token_cases config.crypto token) [
      | inl (payload, good, type) ↦ inl (token, payload, found, good, type)
      | inr bad ↦ inr (
        unauthorized "Invalid or expired access token",
        ground arith,
        inl (unauthorized_status _),
      )
    ]
  ]

  assert_admin_key_cases :
      IsEquality config.timing_safe_equal
      → IsAllowed administrator
        ⊎ ((e : Error) × (assert_admin_key config.timing_safe_equal config.admin_api_key
                headers.admin_key
              ≡ err e)
            × IsRefusal e)
  unfolding assert_admin_key
  assert_admin_key_cases h = elim (Option-cases config.admin_api_key) [
    | inl absent ↦ inr (disabled, ground arith, inr (forbidden_status _))
    | inr ([], empty) ↦ inr (disabled, ground arith, inr (forbidden_status _))
    | inr (k ∷ key, found) ↦
        elim (compare_admin_key_cases config.timing_safe_equal k key headers.admin_key h) [
          | inl same ↦ inl (k, key, found, same)
          | inr (e, refused, r) ↦ inr (e, rw (found, assert_admin_key) refused, r)
        ]
  ]

  module _ ⦃d : Double W⦄ (draws : Draws) (w : World W) where
    serve_failed :
        (request : Request) (e : Error)
        → route config draws headers request w ≡ (failed (thrown e), w)
        → serve config draws headers request w ≡ (failure (error_handler (thrown e)), w)
    unfolding serve reply_of
    serve_failed request e h = rw (h, serve) refl

    refused :
        (request : Request) (e : Error)
        → IsRefusal e
        → route config draws headers request w ≡ (failed (thrown e), w)
        → IsRefused (serve config draws headers request w).0
          × ((serve config draws headers request w).1 ≡ w)
    refused request e r h = rw (serve_failed request e h) (r, refl)

    user_stopped :
        (request : Request) (e : Error)
        → need request ≡ user
        → authenticate config.crypto headers ≡ err e
        → route config draws headers request w ≡ (failed (thrown e), w)
    unfolding route auth_routes lobby_routes player_routes economy_routes inventory_routes
    user_stopped (auth (AuthRequest.register b)) e n h = absurd (ground arith)
    user_stopped (auth (AuthRequest.login b)) e n h = absurd (ground arith)
    user_stopped (auth (AuthRequest.refresh b)) e n h = absurd (ground arith)
    user_stopped (auth (AuthRequest.logout b)) e n h = rw (h, route, auth_routes, with_auth) refl
    user_stopped (auth AuthRequest.logout_all) e n h = rw (h, route, auth_routes, with_auth) refl
    user_stopped (lobby r) e n h = rw (h, route, lobby_routes, with_auth) refl
    user_stopped (player r) e n h = rw (h, route, player_routes, with_auth) refl
    user_stopped (economy r) e n h = rw (h, route, economy_routes, with_auth) refl
    user_stopped (inventory r) e n h = rw (h, route, inventory_routes, with_auth) refl
    user_stopped (leaderboard l) e n h = absurd (ground arith)
    user_stopped (admin r) e n h = absurd (ground arith)

    administrator_stopped :
        (r : AdminRequest) (e : Error)
        → assert_admin_key config.timing_safe_equal config.admin_api_key headers.admin_key ≡ err e
        → route config draws headers (admin r) w ≡ (failed (thrown e), w)
    unfolding route admin_routes
    administrator_stopped (AdminRequest.grant t b) e h =
        rw (h, route, admin_routes, with_admin) refl
    administrator_stopped (AdminRequest.credit t b) e h =
        rw (h, route, admin_routes, with_admin) refl
    administrator_stopped (AdminRequest.debit t b) e h =
        rw (h, route, admin_routes, with_admin) refl

    Guarded : Request → Type 0
    Guarded request =
        IsRefused (serve config draws headers request w).0
        × ((serve config draws headers request w).1 ≡ w)

    user-Guarded : (request : Request) → need request ≡ user → ¬ IsAllowed user → Guarded request
    unfolding Guarded
    user-Guarded request n stranger = elim authenticate_cases [
      | inl allowed ↦ absurd (stranger allowed)
      | inr (e, fails, r) ↦ refused request e r (user_stopped request e n fails)
    ]

    -- A request for a route that asks for a user, without a bearer token that verifies as an access
    -- token, or for an administrator, without the key that is configured, is answered by 401 or 403
    -- and changes nothing; `timingSafeEqual` is taken to hold only of equal texts.
    pub serve_guarded :
        (request : Request)
        → IsEquality config.timing_safe_equal
        → ¬ IsAllowed (need request)
        → IsRefused (serve config draws headers request w).0
          × ((serve config draws headers request w).1 ≡ w)
    unfolding Guarded
    serve_guarded (auth (AuthRequest.register b)) h n = absurd (n tt)
    serve_guarded (auth (AuthRequest.login b)) h n = absurd (n tt)
    serve_guarded (auth (AuthRequest.refresh b)) h n = absurd (n tt)
    serve_guarded (auth (AuthRequest.logout b)) h n =
        user-Guarded (auth (AuthRequest.logout b)) refl n
    serve_guarded (auth AuthRequest.logout_all) h n =
        user-Guarded (auth AuthRequest.logout_all) refl n
    serve_guarded (lobby r) h n = user-Guarded (lobby r) refl n
    serve_guarded (player r) h n = user-Guarded (player r) refl n
    serve_guarded (economy r) h n = user-Guarded (economy r) refl n
    serve_guarded (inventory r) h n = user-Guarded (inventory r) refl n
    serve_guarded (leaderboard l) h n = absurd (n tt)
    serve_guarded (admin r) h n = elim (assert_admin_key_cases h) [
      | inl allowed ↦ absurd (n allowed)
      | inr (e, fails, refusal) ↦ refused (admin r) e refusal (administrator_stopped r e fails)
    ]
