-- ===== src/Api/Routes.antt =====
-- src/api/routes: one function for each file, on the requests with their parsed bodies. `serve` is what
-- Fastify does with a route and the error handler.
use realtime_game_server.Base.{
  ℕ, Bool, Option, none, some, List, [], ◌∷◌, Key, is_some, if◌then◌else◌,
}
use realtime_game_server.Base.Int.{ℤ, pos, pos_part}
use realtime_game_server.Base.Dict.{Dict, lookup, insert}
use realtime_game_server.Base.Action.{Action, gets, modify, pure, ◌>>=◌, ◌>>◌}
use realtime_game_server.Game.Double.{Double}
use realtime_game_server.Game.Session
use realtime_game_server.Game.Session.{GameSession}
use realtime_game_server.Game.Manager.{get_or_create}
use realtime_game_server.Gateway.Connect.{on_session}
use realtime_game_server.Lobby.Rooms.{RoomEntity, RoomMemberEntity}
use realtime_game_server.Lobby.Service as Lobby
use realtime_game_server.Auth.Store
use realtime_game_server.Auth.Store.{find_player}
use realtime_game_server.Auth.Service as AuthService
use realtime_game_server.Auth.Service.{RegisterInput, AuthResult}
use realtime_game_server.Economy
use realtime_game_server.Inventory
use realtime_game_server.Inventory.{AddItemInput, new_inventory, default_inventory_capacity}
use realtime_game_server.Leaderboard
use realtime_game_server.Player
use realtime_game_server.Player.{EquipmentSlot}
use realtime_game_server.Api.Errors.{ErrorReply, error_handler}
use realtime_game_server.Api.Guard.{Headers}
use realtime_game_server.Api.State.{
  World, Config, Draws, Body, Answer, Handler, no_content, auth_result, tokens, rooms, room,
  profile, coins, transactions, contents_of, item, receipt, entries, sent, failed, answer,
  with_body, with_auth, with_admin, on_auth, on_economy, on_players, on_inventories, on_lobby,
}

pub record LoginInput : Type 0 where
  pub email : Key
  pub password : Key

pub record CreateRoomBody : Type 0 where
  pub name : Key
  pub max_players : Option ℕ

pub record RemoveItemInput : Type 0 where
  pub item_key : Key
  pub quantity : ℤ

pub record EquipInput : Type 0 where
  pub slot : EquipmentSlot
  pub item_key : Key

pub record CoinTransfer : Type 0 where
  pub amount : ℤ
  pub reason : Key

pub data AuthRequest : Type 0 where
  register : Option RegisterInput → AuthRequest
  login : Option LoginInput → AuthRequest
  refresh : Option Key → AuthRequest
  logout : Option Key → AuthRequest
  logout_all : AuthRequest

pub data LobbyRequest : Type 0 where
  list my_room : LobbyRequest
  create : Option CreateRoomBody → LobbyRequest
  join : Option Key → LobbyRequest
  leave : LobbyRequest
  ready : Option Bool → LobbyRequest
  start : LobbyRequest

pub data PlayerRequest : Type 0 where
  me : PlayerRequest
  equip : Option EquipInput → PlayerRequest
  unequip : Option EquipmentSlot → PlayerRequest

pub data EconomyRequest : Type 0 where
  balance history : EconomyRequest

pub data InventoryRequest : Type 0 where
  contents : InventoryRequest
  remove : Option RemoveItemInput → InventoryRequest

-- the player and the rest of the body are parsed one after the other
pub data AdminRequest : Type 0 where
  grant : Option Key → Option AddItemInput → AdminRequest
  credit debit : Option Key → Option CoinTransfer → AdminRequest

pub data Request : Type 0 where
  auth : AuthRequest → Request
  lobby : LobbyRequest → Request
  player : PlayerRequest → Request
  economy : EconomyRequest → Request
  inventory : InventoryRequest → Request
  leaderboard : (limit : Option ℤ) → Request
  admin : AdminRequest → Request

-- what the client receives
pub data Reply : Type 0 where
  success : (status : ℕ) → Body → Reply
  failure : ErrorReply → Reply

unfoldable pub reply_of : Answer → Reply
reply_of (sent status body) = success status body
reply_of (failed e) = failure (error_handler e)

-- the player's columns that other services write, as they are now
abbrev pub with_coins : Option ℤ → Store.Player → Store.Player
with_coins none p = p
with_coins (some n) p = record p { coins = pos_part n }

abbrev pub with_level : Option Player.Profile → Store.Player → Store.Player
with_level none p = p
with_level (some q) p = record p { experience = q.experience; level = q.level }

module _ {W : Type 0} where
  -- the other columns and rows that `PlayerRepository.create` writes with a player
  abbrev pub add_player_rows : Store.Player → World W → World W
  add_player_rows p w = record w {
    economy = record w.economy { coins = insert p.id (pos p.coins) w.economy.coins };
    players = record (Player.create_profile p.id p.user_id p.username w.players) {
      inventories =
          insert p.id (new_inventory p.id default_inventory_capacity) w.players.inventories;
    };
  }

  -- `register` on all tables: it has created a player of the new user, or it has not
  unfoldable pub register_user : Config W → Draws → RegisterInput → Action (World W) AuthResult
  register_user config draws input w =
      let (r, w') =
        on_auth
          (AuthService.register config.crypto draws.call config.strings draws.user_id
            draws.player_id draws.password_hash input)
          w in
      (
        r,
        elim (find_player draws.user_id w'.auth) [
          | none ↦ w'
          | some p ↦ if is_some (find_player draws.user_id w.auth) then w' else add_player_rows p w'
        ],
      )

  -- the player as the tables have it now
  abbrev pub current : World W → AuthResult → AuthResult
  current w r =
      let p = r.player in
      record r {
        player =
            with_coins (lookup p.id w.economy.coins) (with_level (lookup p.id w.players.players) p);
      }

  -- `login` on all tables
  unfoldable pub login_user : Config W → Draws → LoginInput → Handler W
  login_user config draws input w =
      answer 200 (λ r. auth_result (current w r))
        (on_auth
          (AuthService.login config.crypto draws.call config.strings input.email input.password))
        w

  unfoldable pub auth_routes : Config W → Draws → Headers → AuthRequest → Handler W
  auth_routes config draws headers (register body) =
      with_body body λ input. answer 201 auth_result (register_user config draws input)
  auth_routes config draws headers (login body) =
      with_body body λ input. login_user config draws input
  auth_routes config draws headers (refresh body) =
      with_body body
        λ token. answer 200 tokens (on_auth (AuthService.refresh config.crypto draws.call token))
  auth_routes config draws headers (logout body) = with_auth config.crypto headers λ payload.
      with_body body λ token.
        answer 204 (λ _. no_content)
          (on_auth (AuthService.logout config.crypto draws.call payload.user_id token))
  auth_routes config draws headers logout_all = with_auth config.crypto headers λ payload.
      answer 204 (λ _. no_content)
        (on_auth (AuthService.logout_all config.crypto draws.call payload.user_id))

  unfoldable pub player_routes : Config W → Headers → PlayerRequest → Handler W
  player_routes config headers request = with_auth config.crypto headers λ payload. elim request [
    | me ↦ answer 200 profile (on_players (Player.get_profile payload.player_id))
    | equip body ↦ with_body body λ input.
        answer 200 profile
          (on_players (Player.equip_item payload.player_id (some input.slot) input.item_key))
    | unequip body ↦
        with_body body λ slot.
          answer 200 profile (on_players (Player.unequip_item payload.player_id (some slot)))
  ]

  unfoldable pub economy_routes : Config W → Headers → EconomyRequest → Handler W
  economy_routes config headers request = with_auth config.crypto headers λ payload. elim request [
    | balance ↦
        answer 200 (coins payload.player_id) (on_economy (Economy.get_balance payload.player_id))
    | history ↦
        answer 200 transactions (on_economy (Economy.list_transactions payload.player_id 50))
  ]

  unfoldable pub inventory_routes : Config W → Headers → InventoryRequest → Handler W
  inventory_routes config headers request = with_auth config.crypto headers λ payload.
      elim request [
        | contents ↦
            answer 200 contents_of (on_inventories (Inventory.get_inventory payload.player_id))
        | remove body ↦ with_body body λ input.
            answer 200 item (
              on_inventories
                (Inventory.remove_item payload.player_id input.item_key input.quantity))
      ]

  unfoldable pub leaderboard_routes : Config W → Option ℤ → Handler W
  leaderboard_routes config limit = with_body limit λ n.
      answer 200 entries
        (gets (λ w. Leaderboard.get_top_players config.order_by n w.players.leaderboard))

  unfoldable pub admin_routes : Config W → Headers → AdminRequest → Handler W
  admin_routes config headers (grant target body) = with_admin config headers (
      with_body target λ player_id. with_body body λ input.
        answer 201 (λ i. item (some i)) (on_inventories (Inventory.add_item player_id input)))
  admin_routes config headers (credit target body) = with_admin config headers (
      with_body target λ player_id. with_body body λ input.
        answer 200 receipt (on_economy (Economy.credit_player player_id input.amount input.reason)))
  admin_routes config headers (debit target body) = with_admin config headers (
      with_body target λ player_id. with_body body λ input.
        answer 200 receipt (on_economy (Economy.debit_player player_id input.amount input.reason)))

module _ {W : Type 0} ⦃d : Double W⦄ where
  -- `gameSessions.get(room.id)?.addPlayer(...)` for each member
  unfoldable pub add_members :
      ℕ → Key → List RoomMemberEntity → Dict (GameSession W) → Dict (GameSession W)
  add_members now room_id [] sessions = sessions
  add_members now room_id (m ∷ members) sessions = add_members now room_id members (
      on_session (λ session. (Session.add_player now m.player_id m.username session).1)
        (some room_id) sessions)

  -- what `/rooms/start` does after the service
  unfoldable pub open_session : Config W → ℕ → RoomEntity → World W → World W
  open_session config now started w =
      let (_, sessions) = get_or_create config.gateway.game started.id w.gateway.sessions in
      record w {
        gateway = record w.gateway {
          sessions = add_members now started.id started.members sessions;
        };
      }

  unfoldable pub start_room : Config W → ℕ → Key → Action (World W) RoomEntity
  start_room config now player_id = do
    started ← on_lobby (Lobby.start_game player_id)
    modify (open_session config now started)
    pure started

  unfoldable pub lobby_routes : Config W → Draws → Headers → LobbyRequest → Handler W
  lobby_routes config draws headers request = with_auth config.crypto headers λ payload.
      elim request [
        | list ↦ answer 200 rooms (on_lobby Lobby.list_rooms)
        | my_room ↦ answer 200 room (on_lobby (Lobby.get_my_room payload.player_id))
        | create body ↦ with_body body λ input.
            answer 201 (λ r. room (some r))
              (on_lobby (
                Lobby.create_room config.lobby draws.codes draws.room_id payload.player_id
                  input.name input.max_players))
        | join body ↦ with_body body λ code.
            answer 200 (λ r. room (some r))
              (on_lobby (Lobby.join_room config.to_upper_case payload.player_id code))
        | leave ↦ answer 200 room (on_lobby (Lobby.leave_room payload.player_id))
        | ready body ↦
            with_body body λ r.
              answer 200 (λ r'. room (some r')) (on_lobby (Lobby.set_ready payload.player_id r))
        | start ↦
            answer 200 (λ r. room (some r)) (start_room config draws.call.now payload.player_id)
      ]

  unfoldable pub route : Config W → Draws → Headers → Request → Handler W
  route config draws headers (auth request) = auth_routes config draws headers request
  route config draws headers (lobby request) = lobby_routes config draws headers request
  route config draws headers (player request) = player_routes config headers request
  route config draws headers (economy request) = economy_routes config headers request
  route config draws headers (inventory request) = inventory_routes config headers request
  route config draws headers (leaderboard limit) = leaderboard_routes config limit
  route config draws headers (admin request) = admin_routes config headers request

  unfoldable pub serve : Config W → Draws → Headers → Request → World W → Reply × World W
  serve config draws headers request w =
      let (a, w') = route config draws headers request w in (reply_of a, w')
