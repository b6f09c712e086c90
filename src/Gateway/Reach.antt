-- ===== src/Gateway/Reach.antt =====
-- Any sequence of what can happen to the gateway, from its start.
use realtime_game_server.Base.{ℕ, ◌≡◌, Option, none, [], Key, arith}
use realtime_game_server.Base.Dict.{lookup}
use realtime_game_server.Game.Double.{Double}
use realtime_game_server.Lobby.Rooms
use realtime_game_server.Auth.Tokens.{AccessTokenPayload}
use realtime_game_server.Gateway.State.{Settings, World, Frame}
use realtime_game_server.Gateway.Connect.{handle_connection, replace_existing_socket, on_close}
use realtime_game_server.Gateway.Handlers.{on_message, tick}
use realtime_game_server.Gateway.Connections.{
  IsConnected, handle_connection-IsConnected, on_message-IsConnected, on_close-IsConnected,
  tick-IsConnected,
}
use realtime_game_server.Gateway.Sessions.{
  AreSessions, on_message-AreSessions, on_close-AreSessions, tick-AreSessions,
}

abbrev pub started : {W : Type 0} → Rooms.Db → World W
started lobby = record {
  sockets = [];
  sockets_by_player = [];
  reconnect_tokens = [];
  subscribed_rooms = [];
  sessions = [];
  lobby = lobby;
  counters = [];
  connect_counters = [];
}

module _ {W : Type 0} ⦃d : Double W⦄ (env : Settings W) where
  -- A connection comes with a socket that is not known yet; `rooms` is the lobby's doing.
  pub data Step (w : World W) : World W → Type 0 where
    connect :
        (now : ℕ) (socket ip : Key) (token : Option AccessTokenPayload)
        → lookup socket w.sockets ≡ none
        → Step w (handle_connection env now socket ip token w).world
    message :
        (now : ℕ) (uuid socket : Key) (frame : Frame W)
        → Step w (on_message env now uuid socket frame w).world
    close : (socket : Key) → Step w (on_close socket w).world
    timer : (now : ℕ) (room_id : Key) → Step w (tick env now room_id w).world
    rooms : (lobby : Rooms.Db) → Step w (record w { lobby = lobby })

  pub data Reach : World W → Type 0 where
    here : (lobby : Rooms.Db) → Reach (started lobby)
    next : {w w' : World W} → Reach w → Step w w' → Reach w'

  -- The two maps agree, and every session is valid.
  pub record IsWorld (w : World W) : Type 0 where
    pub connections : IsConnected w
    pub sessions : AreSessions w.sessions

  handle_connection_sessions :
      (now : ℕ) (socket ip : Key) (token : Option AccessTokenPayload) (w : World W)
      → (handle_connection env now socket ip token w).world.sessions ≡ w.sessions
  unfolding handle_connection replace_existing_socket
  handle_connection_sessions now socket ip token w = ground arith

  pub Step-IsWorld : {w w' : World W} → Step w w' → IsWorld w → IsWorld w'
  Step-IsWorld {w} (connect now socket ip token new) v = record {
    connections = handle_connection-IsConnected env now socket ip token w new v.connections;
    sessions = rw (handle_connection_sessions now socket ip token w) v.sessions;
  }
  Step-IsWorld {w} (message now uuid socket frame) v = record {
    connections = on_message-IsConnected env now uuid socket frame w v.connections;
    sessions = on_message-AreSessions env now uuid socket frame w v.sessions;
  }
  Step-IsWorld {w} (close socket) v = record {
    connections = on_close-IsConnected socket w v.connections;
    sessions = on_close-AreSessions socket w v.sessions;
  }
  Step-IsWorld {w} (timer now room_id) v = record {
    connections = tick-IsConnected env now 0 0 room_id w v.connections;
    sessions = tick-AreSessions env now 0 0 room_id w v.sessions;
  }
  Step-IsWorld (rooms lobby) v = record { connections = v.connections; sessions = v.sessions }

  pub started-IsWorld : (lobby : Rooms.Db) → IsWorld (started lobby)
  unfolding lookup
  started-IsWorld lobby = record {
    connections = record { held = λ p s e. ground arith; unique = λ s c e. ground arith };
    sessions = record { at = λ k s e. ground arith };
  }

  -- Whatever happens to the gateway after its start (connections with new sockets, frames, closes,
  -- ticks, changes of the rooms), a player has one connection at most, the two maps of connections
  -- agree, and every session is valid.
  Reach-IsWorld : {w : World W} → Reach w → IsWorld w
  Reach-IsWorld (here lobby) = started-IsWorld lobby
  Reach-IsWorld (next r st) = Step-IsWorld st (Reach-IsWorld r)
