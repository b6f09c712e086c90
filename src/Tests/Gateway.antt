-- ===== src/Tests/Gateway.antt =====
-- The gateway theorems at a world with one room.
use realtime_game_server.Gateway.Connections.{IsConnected}
use realtime_game_server.Gateway.Shutdown.{
  is_told, shutdown, close, close_each, closes, shutdown_ends,
}
use realtime_game_server.Base.{
  any, ◌==◌, arith, true, ◌≡◌, refl, ◌⊎◌, false, none, some, [], ◌∷◌, Key,
}
use realtime_game_server.Base.Int.{ℤ, pos}
use realtime_game_server.Base.Dict.{Dict, lookup, keys}
use realtime_game_server.Game.Protocol.{ClientMessage}
use realtime_game_server.Lobby.Rooms
use realtime_game_server.Lobby.Rooms.{Room, waiting}
use realtime_game_server.Auth.Tokens.{AccessTokenPayload, TokenType}
use realtime_game_server.Gateway.State.{
  Settings, World, Frame, Parsed, SocketContext, ReconnectEntry,
}
use realtime_game_server.Gateway.Connect.{handle_connection}
use realtime_game_server.Gateway.Handlers.{enter, join_session, on_message}
use realtime_game_server.Gateway.Join.{
  SameWorld, MayEnter, join_session_cases, join_session_consumes,
}
use realtime_game_server.Gateway.Reach.{Step, Reach, started}
use realtime_game_server.Tests.Fixed.{thousandths}

abbrev pub settings : Settings ℤ
settings = record {
  game = record { game_tick_rate = 20; max_move_speed = pos 12000; heartbeat_timeout_ms = 10_000 };
  ws_rate_limit_per_second = 2;
  ws_connect_rate_limit_per_minute = 60;
}

abbrev room : Room
room = record {
  id = 9;
  code = 40;
  name = 77;
  host_id = 1;
  max_players = 8;
  status = waiting;
  members = record { player_id = 1; ready = false } ∷ [];
}

abbrev pub lobby : Rooms.Db
lobby = record { rooms = (9, room) ∷ []; sessions = []; names = λ p. p }

abbrev pub payload : AccessTokenPayload
payload = record { user_id = 3; player_id = 1; username = 11; type = TokenType.access }

abbrev join : Frame ℤ
join = record { length = 80; parsed = Parsed.valid (ClientMessage.join_session 9 none) }

no_socket : (s : Key) → lookup s (started {W = ℤ} lobby).sockets ≡ none
unfolding lookup
no_socket s = refl

-- player 1 connects and joins the session of room 9
abbrev connected : World ℤ
connected = (handle_connection settings 100 5 6 (some payload) (started lobby)).world

abbrev playing : World ℤ
playing = (on_message settings 150 70 5 join connected).world

history : Reach settings playing
history =
    Reach.next (Reach.next (Reach.here lobby) (Step.connect 100 5 6 (some payload) (no_socket 5)))
      (Step.message 150 70 5 join)

abbrev pub context : SocketContext
context = record {
  user_id = 3;
  player_id = 1;
  username = 11;
  room_id = none;
  reconnect_token = none;
}

-- a world with that connection, a reconnect token, and a counter at its limit
abbrev pub world : World ℤ
world = record {
  sockets = (5, context) ∷ [];
  sockets_by_player = (1, 5) ∷ [];
  reconnect_tokens = (60, record { player_id = 1; room_id = 9; expires_at = 1000 }) ∷ [];
  subscribed_rooms = [];
  sessions = [];
  lobby = lobby;
  counters = (1, record { count = 2; expires_at = 1000 }) ∷ [];
  connect_counters = [];
}

join_session_cases_example :
    SameWorld world (join_session settings 200 70 5 context 9 none world).world
    ⊎ (MayEnter 1 9 world
        × ((tokens : Dict ReconnectEntry) × (join_session settings 200 70 5 context 9 none world
              ≡ enter settings 200 70 5 context 9 (record world { reconnect_tokens = tokens }))))
join_session_cases_example = join_session_cases settings 200 70 5 context 9 none world

join_session_consumes_example :
    lookup 60 (join_session settings 200 70 5 context 9 (some 60) world).world.reconnect_tokens
    ≡ none
join_session_consumes_example = join_session_consumes settings 200 70 5 context 9 60 world refl

pub known : lookup 5 world.sockets ≡ some context
unfolding lookup
known = refl

-- player 1 asks for a room that is not there, a second after its counter ended
abbrev lost : Frame ℤ
lost = record { length = 80; parsed = Parsed.valid (ClientMessage.join_session 8 none) }

-- the server stops while player 1 is connected
world-IsConnected : IsConnected world
unfolding lookup
world-IsConnected = record {
  held = λ p s e. ground (arith, e);
  unique = λ s c e. ground (arith, e);
}

told_closes :
    (s : Key) → is_told s (shutdown world).effects ≡ true → any (λ k. k == s) (5 ∷ []) ≡ true
unfolding shutdown close close_each keys
told_closes s h = ground (arith, h)

shutdown_ends_example :
    let after = closes (5 ∷ []) (shutdown world).world in
    ((s : Key) → lookup s after.sockets ≡ none)
    × ((p : Key) → lookup p after.sockets_by_player ≡ none)
    × ((r : Key) → lookup r after.sessions ≡ none)
shutdown_ends_example = shutdown_ends (5 ∷ []) world world-IsConnected told_closes
