-- ===== src/Api/Keeps.antt =====
-- What the routes keep.
use realtime_game_server.Base.{
  ℕ, ◌≡◌, Bool, none, some, Option, Key, List, [], ◌∷◌, Option-cases, inl, inr, refl, arith, ◌⊎◌,
}
use realtime_game_server.Base.Int.{ℤ}
use realtime_game_server.Base.Dict.{Dict, lookup}
use realtime_game_server.Base.Action.{Error, Result, ok, err}
use realtime_game_server.Base.Action.Keeps as Action
use realtime_game_server.Base.Action.Keeps.{keeps_rules}
use realtime_game_server.Game.Double.{Double}
use realtime_game_server.Game.Session
use realtime_game_server.Game.Session.{GameSession}
use realtime_game_server.Game.Session.Invariant.{create-IsValid, start-IsValid, add_player-IsValid}
use realtime_game_server.Game.Manager.{get_or_create}
use realtime_game_server.Gateway.Sessions.{AreSessions, insert-AreSessions, on_session-AreSessions}
use realtime_game_server.Lobby.Rooms.{RoomEntity, RoomMemberEntity}
use realtime_game_server.Lobby.Service as Lobby
use realtime_game_server.Lobby.Create.{create_room-IsValid}
use realtime_game_server.Lobby.Keeps.{leave_room-IsValid, set_ready-IsValid, join_room-IsValid}
use realtime_game_server.Lobby.Start.{start_game-IsValid}
use realtime_game_server.Auth.Store.{find_player}
use realtime_game_server.Auth.Service as AuthService
use realtime_game_server.Economy
use realtime_game_server.Economy.Accounts.{
  AreAccounts, credit_player-AreAccounts, debit_player-AreAccounts,
}
use realtime_game_server.Inventory
use realtime_game_server.Inventory.Keeps as Inventories
use realtime_game_server.Inventory.Methods.{
  add_item-IsValid, remove_item-IsValid, get_inventory-IsValid,
}
use realtime_game_server.Player
use realtime_game_server.Player.Experience.{
  equip_item-Keeps, unequip_item-Keeps, equip_item-inventories, unequip_item-inventories,
}
use realtime_game_server.Api.Guard.{Headers}
use realtime_game_server.Api.State.{World, Config, Draws, auth_result, on_auth, on_lobby}
use realtime_game_server.Api.Routes.{
  Request, AuthRequest, LobbyRequest, PlayerRequest, EconomyRequest, InventoryRequest, AdminRequest,
  LoginInput, current, login_user, register_user, auth_routes, lobby_routes, player_routes,
  economy_routes, inventory_routes, leaderboard_routes, admin_routes, route, serve, add_members,
  open_session, start_room,
}
use realtime_game_server.Api.Invariant.{
  IsServer, IsSafe, Keeps, IsSafe-answer, IsSafe-with_body, IsSafe-with_auth, IsSafe-with_admin,
  Keeps-on_auth, Keeps-on_economy, Keeps-on_players, Keeps-on_inventories, Keeps-on_lobby,
  on_lobby-IsServer,
}
use realtime_game_server.Api.Register.{register_user-IsServer}

Result-cases : {A : Type 0} (r : Result A) → ((a : A) × (r ≡ ok a)) ⊎ ((e : Error) × (r ≡ err e))
Result-cases (ok a) = inl (a, refl)
Result-cases (err e) = inr (e, refl)

module _ {W : Type 0} ⦃d : Double W⦄ (config : Config W) (now : ℕ) where
  add_members-AreSessions :
      (room_id : Key) (members : List RoomMemberEntity) (sessions : Dict (GameSession W))
      → AreSessions sessions
      → AreSessions (add_members now room_id members sessions)
  unfolding add_members
  add_members-AreSessions room_id [] sessions v = v
  add_members-AreSessions room_id (m ∷ members) sessions v =
      let add = λ (s : GameSession W). (Session.add_player now m.player_id m.username s).1 in
      add_members-AreSessions room_id members _ (
        on_session-AreSessions add (some room_id) sessions
          (λ s h. add_player-IsValid now m.player_id m.username s h) v)

  get_or_create-AreSessions :
      (env : Session.Settings W) (room_id : Key) (sessions : Dict (GameSession W))
      → AreSessions sessions
      → AreSessions (get_or_create env room_id sessions).1
  unfolding get_or_create
  get_or_create-AreSessions env room_id sessions v = elim (Option-cases (lookup room_id sessions)) [
    | inl absent ↦
        rw (absent, get_or_create)
          (insert-AreSessions room_id (Session.start env (Session.create room_id)) sessions
            (start-IsValid env (Session.create room_id) (create-IsValid room_id)) v)
    | inr (s, found) ↦ rw (found, get_or_create) v
  ]

  open_session-IsServer :
      (started : RoomEntity) (w : World W)
      → IsServer w
      → IsServer (open_session config now started w)
  unfolding open_session
  open_session-IsServer started w v =
      let (_, sessions) = get_or_create config.gateway.game started.id w.gateway.sessions in
      record {
        connections = v.connections;
        sessions = add_members-AreSessions started.id started.members sessions (
            get_or_create-AreSessions config.gateway.game started.id w.gateway.sessions v.sessions);
        lobby = v.lobby;
        accounts = v.accounts;
        profiles = v.profiles;
        inventories = v.inventories;
      }

  start_room_cases :
      (player_id : Key) (w : World W)
      → ((started : RoomEntity) × ((start_room config now player_id w).1
            ≡ open_session config now started (on_lobby (Lobby.start_game player_id) w).1))
        ⊎ ((start_room config now player_id w).1 ≡ (on_lobby (Lobby.start_game player_id) w).1)
  unfolding start_room
  start_room_cases player_id w = elim (Result-cases (on_lobby (Lobby.start_game player_id) w).0) [
    | inl (started, good) ↦ inl (started, ground arith)
    | inr (e, bad) ↦ inr (ground arith)
  ]

  start_room-IsServer :
      (player_id : Key) (w : World W) → IsServer w → IsServer (start_room config now player_id w).1
  start_room-IsServer player_id w v =
      let kept =
        on_lobby-IsServer w v (Lobby.start_game player_id)
          (start_game-IsValid player_id w.gateway.lobby v.lobby) in
      elim (start_room_cases player_id w) [
        | inl (started, e) ↦
            rw e (open_session-IsServer started (on_lobby (Lobby.start_game player_id) w).1 kept)
        | inr e ↦ rw e kept
      ]

-- reads
get_profile-Keeps : (P : Player.Db → Type 0) (id : Key) → Action.Keeps P (Player.get_profile id)
unfolding Player.get_profile
get_profile-Keeps P id = search keeps_rules

get_balance-Keeps : (P : Economy.Db → Type 0) (id : Key) → Action.Keeps P (Economy.get_balance id)
unfolding Economy.get_balance
get_balance-Keeps P id = search keeps_rules

list_transactions-Keeps :
    (P : Economy.Db → Type 0) (id : Key) (limit : ℕ)
    → Action.Keeps P (Economy.list_transactions id limit)
unfolding Economy.list_transactions
list_transactions-Keeps P id limit = search keeps_rules

credit_player-Keeps :
    (id : Key) (amount : ℤ) (reason : Key)
    → Action.Keeps AreAccounts (Economy.credit_player id amount reason)
credit_player-Keeps id amount reason = record { at = credit_player-AreAccounts id amount reason }

debit_player-Keeps :
    (id : Key) (amount : ℤ) (reason : Key)
    → Action.Keeps AreAccounts (Economy.debit_player id amount reason)
debit_player-Keeps id amount reason = record { at = debit_player-AreAccounts id amount reason }

get_inventory-Keeps : (id : Key) → Action.Keeps Inventories.IsValid (Inventory.get_inventory id)
get_inventory-Keeps id = record { at = get_inventory-IsValid id }

add_item-Keeps :
    (id : Key) (input : Inventory.AddItemInput)
    → Action.Keeps Inventories.IsValid (Inventory.add_item id input)
add_item-Keeps id input = record { at = add_item-IsValid id input }

remove_item-Keeps :
    (id key : Key) (quantity : ℤ)
    → Action.Keeps Inventories.IsValid (Inventory.remove_item id key quantity)
remove_item-Keeps id key quantity = record { at = remove_item-IsValid id key quantity }

equip_item-IsInventories :
    (id : Key) (slot : Option Player.EquipmentSlot) (item : Key)
    → Action.Keeps
        (λ (db : Player.Db). Inventories.IsValid db.inventories)
        (Player.equip_item id slot item)
equip_item-IsInventories = equip_item-inventories Inventories.IsValid

unequip_item-IsInventories :
    (id : Key) (slot : Option Player.EquipmentSlot)
    → Action.Keeps
        (λ (db : Player.Db). Inventories.IsValid db.inventories)
        (Player.unequip_item id slot)
unequip_item-IsInventories = unequip_item-inventories Inventories.IsValid

ruleset service_rules = (
  IsSafe-answer, IsSafe-with_body, IsSafe-with_auth, IsSafe-with_admin, Keeps-on_auth,
  Keeps-on_economy, Keeps-on_players, Keeps-on_inventories, get_profile-Keeps, get_balance-Keeps,
  list_transactions-Keeps, credit_player-Keeps, debit_player-Keeps, get_inventory-Keeps,
  add_item-Keeps, remove_item-Keeps, equip_item-Keeps, unequip_item-Keeps, equip_item-IsInventories,
  unequip_item-IsInventories,
)

module _ {W : Type 0} (config : Config W) (headers : Headers) (w : World W) (v : IsServer w) where
  player_routes-IsSafe : (request : PlayerRequest) → IsSafe w (player_routes config headers request)
  unfolding player_routes
  player_routes-IsSafe PlayerRequest.me = search service_rules depth 20
  player_routes-IsSafe (PlayerRequest.equip body) = search service_rules depth 20
  player_routes-IsSafe (PlayerRequest.unequip body) = search service_rules depth 20

  economy_routes-IsSafe :
      (request : EconomyRequest) → IsSafe w (economy_routes config headers request)
  unfolding economy_routes
  economy_routes-IsSafe EconomyRequest.balance = search service_rules depth 20
  economy_routes-IsSafe EconomyRequest.history = search service_rules depth 20

  inventory_routes-IsSafe :
      (request : InventoryRequest) → IsSafe w (inventory_routes config headers request)
  unfolding inventory_routes
  inventory_routes-IsSafe InventoryRequest.contents = search service_rules depth 20
  inventory_routes-IsSafe (InventoryRequest.remove body) = search service_rules depth 20

  admin_routes-IsSafe : (request : AdminRequest) → IsSafe w (admin_routes config headers request)
  unfolding admin_routes
  admin_routes-IsSafe (AdminRequest.grant target body) = search service_rules depth 20
  admin_routes-IsSafe (AdminRequest.credit target body) = search service_rules depth 20
  admin_routes-IsSafe (AdminRequest.debit target body) = search service_rules depth 20

  leaderboard_routes-IsSafe : (limit : Option ℤ) → IsSafe w (leaderboard_routes config limit)
  unfolding leaderboard_routes
  leaderboard_routes-IsSafe none = record { at = v }
  leaderboard_routes-IsSafe (some n) = record { at = v }

-- The ids that the request draws are in use nowhere.
pub record AreFresh {W : Type 0} (draws : Draws) (w : World W) : Type 0 where
  pub user : find_player draws.user_id w.auth ≡ none
  pub player : lookup draws.player_id w.economy.coins ≡ none
  pub room : lookup draws.room_id w.gateway.lobby.rooms ≡ none

module _ {W : Type 0} (config : Config W) (draws : Draws) (headers : Headers) (w : World W)
    (fresh : AreFresh draws w) (v : IsServer w) where
  register_user-Keeps :
      (input : AuthService.RegisterInput) → Keeps w (register_user config draws input)
  register_user-Keeps input = record {
    at = register_user-IsServer config draws input w fresh.user fresh.player v;
  }

  login_user-IsSafe : (input : LoginInput) → IsSafe w (login_user config draws input)
  unfolding login_user
  login_user-IsSafe input =
      let m =
        AuthService.login config.crypto draws.call config.strings input.email input.password in
      record {
        at =
            (IsSafe-answer 200 (λ r. auth_result (current w r)) (on_auth m) (Keeps-on_auth v m)).at;
      }

  auth_routes-IsSafe : (request : AuthRequest) → IsSafe w (auth_routes config draws headers request)
  unfolding auth_routes
  auth_routes-IsSafe (AuthRequest.register body) =
      search (service_rules, register_user-Keeps) depth 20
  auth_routes-IsSafe (AuthRequest.login body) = search (service_rules, login_user-IsSafe) depth 20
  auth_routes-IsSafe (AuthRequest.refresh body) = search service_rules depth 20
  auth_routes-IsSafe (AuthRequest.logout body) = search service_rules depth 20
  auth_routes-IsSafe AuthRequest.logout_all = search service_rules depth 20

  create_room-Keeps :
      (host_id name : Key) (max_players : Option ℕ)
      → Keeps w (
          on_lobby
            (Lobby.create_room config.lobby draws.codes draws.room_id host_id name max_players))
  create_room-Keeps host_id name max_players = Keeps-on_lobby v _ (
      create_room-IsValid config.lobby draws.codes draws.room_id host_id name max_players
        w.gateway.lobby fresh.room v.lobby)

  join_room-Keeps :
      (player_id code : Key)
      → Keeps w (on_lobby (Lobby.join_room config.to_upper_case player_id code))
  join_room-Keeps player_id code =
      Keeps-on_lobby v _
        (join_room-IsValid config.to_upper_case player_id code w.gateway.lobby v.lobby)

  leave_room-Keeps : (player_id : Key) → Keeps w (on_lobby (Lobby.leave_room player_id))
  leave_room-Keeps player_id =
      Keeps-on_lobby v _ (leave_room-IsValid player_id w.gateway.lobby v.lobby)

  set_ready-Keeps : (player_id : Key) (r : Bool) → Keeps w (on_lobby (Lobby.set_ready player_id r))
  set_ready-Keeps player_id r =
      Keeps-on_lobby v _ (set_ready-IsValid player_id r w.gateway.lobby v.lobby)

  list_rooms-Keeps : Keeps w (on_lobby Lobby.list_rooms)
  unfolding Lobby.list_rooms
  list_rooms-Keeps = Keeps-on_lobby v _ v.lobby

  get_my_room-Keeps : (player_id : Key) → Keeps w (on_lobby (Lobby.get_my_room player_id))
  unfolding Lobby.get_my_room
  get_my_room-Keeps player_id = Keeps-on_lobby v _ v.lobby

  module _ ⦃d : Double W⦄ where
    start_room-Keeps : (player_id : Key) → Keeps w (start_room config draws.call.now player_id)
    start_room-Keeps player_id = record {
      at = start_room-IsServer config draws.call.now player_id w v;
    }

    lobby_routes-IsSafe :
        (request : LobbyRequest) → IsSafe w (lobby_routes config draws headers request)
    unfolding lobby_routes
    lobby_routes-IsSafe LobbyRequest.list = search (service_rules, list_rooms-Keeps) depth 20
    lobby_routes-IsSafe LobbyRequest.my_room = search (service_rules, get_my_room-Keeps) depth 20
    lobby_routes-IsSafe (LobbyRequest.create body) =
        search (service_rules, create_room-Keeps) depth 20
    lobby_routes-IsSafe (LobbyRequest.join body) = search (service_rules, join_room-Keeps) depth 20
    lobby_routes-IsSafe LobbyRequest.leave = search (service_rules, leave_room-Keeps) depth 20
    lobby_routes-IsSafe (LobbyRequest.ready body) = search (service_rules, set_ready-Keeps) depth 20
    lobby_routes-IsSafe LobbyRequest.start = search (service_rules, start_room-Keeps) depth 20

    route-IsSafe : (request : Request) → IsSafe w (route config draws headers request)
    unfolding route
    route-IsSafe (Request.auth request) = auth_routes-IsSafe request
    route-IsSafe (Request.lobby request) = lobby_routes-IsSafe request
    route-IsSafe (Request.player request) = player_routes-IsSafe config headers w v request
    route-IsSafe (Request.economy request) = economy_routes-IsSafe config headers w v request
    route-IsSafe (Request.inventory request) = inventory_routes-IsSafe config headers w v request
    route-IsSafe (Request.leaderboard limit) = leaderboard_routes-IsSafe config headers w v limit
    route-IsSafe (Request.admin request) = admin_routes-IsSafe config headers w v request

    -- A request keeps the server well-formed.
    pub serve-IsServer : (request : Request) → IsServer (serve config draws headers request w).1
    unfolding serve
    serve-IsServer request = (route-IsSafe request).at
