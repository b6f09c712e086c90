-- ===== src/Gateway/State.antt =====
-- The state of the gateway (src/infrastructure/websocket/gateway.ts), what its handlers leave, and its
-- reconnect tokens.
use realtime_game_server.Base.{
  ℕ, String, Bool, false, Option, none, some, List, [], ◌∷◌, Key, leb, ◌==◌, if◌then◌else◌,
}
use realtime_game_server.Base.Dict.{Dict, erase}
use realtime_game_server.Base.Action.{Error}
use realtime_game_server.Game.Protocol.{ClientMessage, ServerMessage}
use realtime_game_server.Game.Session
use realtime_game_server.Game.Session.{GameSession}
use realtime_game_server.Lobby.Rooms
use realtime_game_server.Lobby.Rooms.{RoomEntity, is_active}
use realtime_game_server.RateLimit.{Counter}

pub record SocketContext : Type 0 where
  pub user_id : Key
  pub player_id : Key
  pub username : Key
  pub room_id : Option Key
  pub reconnect_token : Option Key

pub record ReconnectEntry : Type 0 where
  pub player_id : Key
  pub room_id : Key
  pub expires_at : ℕ

abbrev pub reconnect_ttl_ms : ℕ
reconnect_ttl_ms = 300_000

pub record Settings (W : Type 0) : Type 0 where
  pub game : Session.Settings W
  pub ws_rate_limit_per_second : ℕ
  pub ws_connect_rate_limit_per_minute : ℕ

-- The gateway's maps, the sessions, the lobby's tables, and the limiter's counters: those under
-- `ws:` and those under `ws-connect:`.
pub record World (W : Type 0) : Type 0 where
  pub sockets : Dict SocketContext
  pub sockets_by_player : Dict Key
  pub reconnect_tokens : Dict ReconnectEntry
  pub subscribed_rooms : List Key
  pub sessions : Dict (GameSession W)
  pub lobby : Rooms.Db
  pub counters : Dict Counter
  pub connect_counters : Dict Counter

pub data Effect (W : Type 0) : Type 0 where
  send : (socket : Key) → ServerMessage W → Effect W
  close : (socket : Key) → (code : ℕ) → Effect W
  set_online : (player_id : Key) → (room_id : Option Key) → Effect W
  set_offline : (player_id : Key) → Effect W

-- what a handler leaves: the world, what it has sent, and the error with which its promise is
-- rejected, if it is
pub record Outcome (W : Type 0) : Type 0 where
  pub world : World W
  pub effects : List (Effect W)
  pub rejected : Option Error

pub data Parsed (W : Type 0) : Type 0 where
  malformed invalid : Parsed W
  valid : ClientMessage W → Parsed W

pub record Frame (W : Type 0) : Type 0 where
  pub length : ℕ
  pub parsed : Parsed W

abbrev pub max_payload : ℕ
max_payload = 16_384

unfoldable pub purge_expired_reconnect_tokens : ℕ → Dict ReconnectEntry → Dict ReconnectEntry
purge_expired_reconnect_tokens now [] = []
purge_expired_reconnect_tokens now ((token, entry) ∷ entries) =
    let rest = purge_expired_reconnect_tokens now entries in
    if leb entry.expires_at now then rest else (token, entry) ∷ rest

-- the test of a reconnect token that was given
unfoldable pub is_good_reconnect : ℕ → Key → Key → Option ReconnectEntry → Bool
is_good_reconnect now player_id room_id none = false
is_good_reconnect now player_id room_id (some cached) =
    if leb cached.expires_at now
    then false
    else if cached.player_id == player_id
    then cached.room_id == room_id
    else false

abbrev pub erase_opt : {V : Type 0} → Option Key → Dict V → Dict V
erase_opt none d = d
erase_opt (some k) d = erase k d

module _ {W : Type 0} where
  abbrev pub done : World W → List (Effect W) → Outcome W
  done w effects = record { world = w; effects = effects; rejected = none }

  abbrev pub refuse : World W → Key → String → String → Outcome W
  refuse w socket code message = done w (Effect.send socket (ServerMessage.error code message) ∷ [])
