-- ===== src/Api/State.antt =====
-- What the server keeps (the container of src/shared/container.ts and the tables behind it), what a
-- route needs beside it, and how a route answers.
use realtime_game_server.Base.{ℕ, Bool, Option, none, some, List, Key}
use realtime_game_server.Base.Action.{ok, err, Action}
use realtime_game_server.Base.Int.{ℤ}
use realtime_game_server.Lobby.Rooms
use realtime_game_server.Lobby.Rooms.{RoomEntity}
use realtime_game_server.Lobby.Service as Lobby
use realtime_game_server.Auth.Store
use realtime_game_server.Auth.Tokens.{Crypto, AccessTokenPayload}
use realtime_game_server.Auth.Service as AuthService
use realtime_game_server.Auth.Service.{AuthResult, AuthTokens, Strings}
use realtime_game_server.Economy
use realtime_game_server.Economy.{CoinTransaction, Receipt}
use realtime_game_server.Inventory
use realtime_game_server.Inventory.{Item, Inventory}
use realtime_game_server.Leaderboard.{Row, LeaderboardEntry}
use realtime_game_server.Player
use realtime_game_server.Player.{Profile}
use realtime_game_server.Gateway.State as Gateway
use realtime_game_server.Api.Errors.{Failure, thrown, malformed}
use realtime_game_server.Api.Guard.{Headers, authenticate, assert_admin_key}

-- the gateway's state, with the sessions and the lobby's tables in it, and the other tables
pub record World (W : Type 0) : Type 0 where
  pub gateway : Gateway.World W
  pub auth : Store.Db
  pub economy : Economy.Db
  pub players : Player.Db

-- the configuration and the libraries
pub record Config (W : Type 0) : Type 0 where
  pub gateway : Gateway.Settings W
  pub lobby : Lobby.Settings
  pub crypto : Crypto
  pub strings : Strings
  pub to_upper_case : Key → Key
  pub admin_api_key : Option (List ℕ)
  pub timing_safe_equal : List ℕ → List ℕ → Bool
  pub order_by : List Row → List Row

-- the clock and what one request draws at random
pub record Draws : Type 0 where
  pub call : AuthService.Call
  pub user_id : Key
  pub player_id : Key
  pub password_hash : Key
  pub room_id : Key
  pub codes : ℕ → Key

pub data Body : Type 0 where
  no_content : Body
  auth_result : AuthResult → Body
  tokens : AuthTokens → Body
  rooms : List RoomEntity → Body
  room : Option RoomEntity → Body
  profile : Profile → Body
  coins : Key → ℤ → Body
  transactions : List CoinTransaction → Body
  contents_of : Inventory → Body
  item : Option Item → Body
  receipt : Receipt → Body
  entries : List LeaderboardEntry → Body

pub data Answer : Type 0 where
  sent : (status : ℕ) → Body → Answer
  failed : Failure → Answer

-- a route, or what is left of it
abbrev pub Handler : Type 0 → Type 0
Handler W = World W → Answer × World W

module _ {W : Type 0} where
  -- the answer of a service, or the exception that it throws
  abbrev pub answer : {A : Type 0} → ℕ → (A → Body) → Action (World W) A → Handler W
  answer status body m w =
      let (r, w') = m w in
      elim r [ ok a ↦ (sent status (body a), w') | err e ↦ (failed (thrown e), w') ]

  -- `schema.parse(request.body)`
  abbrev pub with_body : {B : Type 0} → Option B → (B → Handler W) → Handler W
  with_body none handler w = (failed malformed, w)
  with_body (some body) handler w = handler body w

  -- the hook `authenticate`, and `requireAuth` after it
  abbrev pub with_auth : Crypto → Headers → (AccessTokenPayload → Handler W) → Handler W
  with_auth c headers handler w = elim (authenticate c headers) [
    | ok payload ↦ handler payload w
    | err e ↦ (failed (thrown e), w)
  ]

  -- the hook `requireAdmin`
  abbrev pub with_admin : Config W → Headers → Handler W → Handler W
  with_admin config headers handler w =
      elim (assert_admin_key config.timing_safe_equal config.admin_api_key headers.admin_key) [
        | ok _ ↦ handler w
        | err e ↦ (failed (thrown e), w)
      ]

  -- a service works on its own tables
  abbrev pub on_auth : {A : Type 0} → Action Store.Db A → Action (World W) A
  on_auth m w = let (r, s) = m w.auth in (r, record w { auth = s })

  abbrev pub on_economy : {A : Type 0} → Action Economy.Db A → Action (World W) A
  on_economy m w = let (r, s) = m w.economy in (r, record w { economy = s })

  abbrev pub on_players : {A : Type 0} → Action Player.Db A → Action (World W) A
  on_players m w = let (r, s) = m w.players in (r, record w { players = s })

  abbrev pub on_inventories : {A : Type 0} → Action Inventory.Db A → Action (World W) A
  on_inventories m w =
      let (r, s) = m w.players.inventories in
      (r, record w { players = record w.players { inventories = s } })

  abbrev pub on_lobby : {A : Type 0} → Action Rooms.Db A → Action (World W) A
  on_lobby m w =
      let (r, s) = m w.gateway.lobby in (r, record w { gateway = record w.gateway { lobby = s } })
