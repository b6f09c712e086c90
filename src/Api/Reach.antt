-- ===== src/Api/Reach.antt =====
-- Any sequence of requests and of what happens to the gateway, from an empty server.
use realtime_game_server.Base.{ℕ, ◌≡◌, refl, Option, none, [], Key, arith}
use realtime_game_server.Base.Dict.{lookup}
use realtime_game_server.Game.Double.{Double}
use realtime_game_server.Lobby.Reach as Lobby
use realtime_game_server.Auth.Tokens.{AccessTokenPayload}
use realtime_game_server.Gateway.State as Gateway
use realtime_game_server.Gateway.State.{Frame}
use realtime_game_server.Gateway.Connect.{handle_connection, on_close}
use realtime_game_server.Gateway.Handlers.{on_message, tick}
use realtime_game_server.Gateway.Reach as Events
use realtime_game_server.Gateway.Tables.{
  on_message-lobby, tick-lobby, handle_connection-lobby, on_close-lobby,
}
use realtime_game_server.Api.Guard.{Headers}
use realtime_game_server.Api.State.{World, Config, Draws}
use realtime_game_server.Api.Routes.{Request, serve}
use realtime_game_server.Api.Invariant.{IsServer}
use realtime_game_server.Api.Keeps.{AreFresh, serve-IsServer}

abbrev pub empty : {W : Type 0} → (names : Key → Key) → World W
empty names = record {
  gateway = Events.started (Lobby.empty names);
  auth = record { users = []; players = []; tokens = [] };
  economy = record { coins = []; transactions = [] };
  players = record { players = []; leaderboard = []; inventories = [] };
}

module _ {W : Type 0} ⦃d : Double W⦄ (config : Config W) where
  -- A request draws ids that are in use nowhere, and a connection comes with a new socket.
  pub data Step (w : World W) : World W → Type 0 where
    http :
        (draws : Draws) (headers : Headers) (request : Request)
        → AreFresh draws w
        → Step w (serve config draws headers request w).1
    connect :
        (now : ℕ) (socket ip : Key) (token : Option AccessTokenPayload)
        → lookup socket w.gateway.sockets ≡ none
        → Step w (record w {
          gateway = (handle_connection config.gateway now socket ip token w.gateway).world;
        })
    message :
        (now : ℕ) (uuid socket : Key) (frame : Frame W)
        → Step w (record w {
          gateway = (on_message config.gateway now uuid socket frame w.gateway).world;
        })
    close : (socket : Key) → Step w (record w { gateway = (on_close socket w.gateway).world })
    timer :
        (now : ℕ) (room_id : Key)
        → Step w (record w { gateway = (tick config.gateway now room_id w.gateway).world })

  pub data Reach (names : Key → Key) : World W → Type 0 where
    here : Reach names (empty names)
    next : {w w' : World W} → Reach names w → Step w w' → Reach names w'

  -- what the gateway does to itself
  on_gateway :
      (w : World W) (g : Gateway.World W)
      → Events.Step config.gateway w.gateway g
      → g.lobby ≡ w.gateway.lobby
      → IsServer w
      → IsServer (record w { gateway = g })
  on_gateway w g step same v =
      let moved =
        Events.Step-IsWorld config.gateway step
          (record { connections = v.connections; sessions = v.sessions }) in
      record {
        connections = moved.connections;
        sessions = moved.sessions;
        lobby = rw same v.lobby;
        accounts = v.accounts;
        profiles = v.profiles;
        inventories = v.inventories;
      }

  Step-IsServer : {w w' : World W} → Step w w' → IsServer w → IsServer w'
  Step-IsServer {w} (http draws headers request fresh) v =
      serve-IsServer config draws headers w fresh v request
  Step-IsServer {w} (connect now socket ip token new) v =
      on_gateway w _ (Events.Step.connect now socket ip token new)
        (handle_connection-lobby config.gateway now 0 socket ip token w.gateway) v
  Step-IsServer {w} (message now uuid socket frame) v =
      on_gateway w _ (Events.Step.message now uuid socket frame)
        (on_message-lobby config.gateway now uuid socket frame w.gateway) v
  Step-IsServer {w} (close socket) v =
      on_gateway w _ (Events.Step.close socket) (on_close-lobby socket w.gateway) v
  Step-IsServer {w} (timer now room_id) v =
      on_gateway w _ (Events.Step.timer now room_id)
        (tick-lobby config.gateway now 0 0 room_id w.gateway) v

  empty-IsServer : (names : Key → Key) → IsServer (empty {W = W} names)
  unfolding lookup
  empty-IsServer names =
      let gateway = Events.started-IsWorld config.gateway (Lobby.empty names) in
      record {
        connections = gateway.connections;
        sessions = gateway.sessions;
        lobby = Lobby.empty-IsValid config.lobby config.to_upper_case names;
        accounts = record {
          valid = record {
            solvent = λ p c e. ground arith;
            explained = λ p c e. absurd (ground arith);
          };
          unopened = λ p e. refl;
        };
        profiles = λ id p e. absurd (ground arith);
        inventories = λ p i e. absurd (ground arith);
      }

  -- Whatever happens to an empty server (HTTP requests that draw unused ids, connections with new
  -- sockets, frames, closes, ticks), its connections agree and its sessions are valid; its rooms
  -- hold at most their capacity, each player once, and no player is in two rooms that are not
  -- closed; no balance is negative and the ledger explains each from 100 coins; every profile has
  -- the level of its experience and agrees with the leaderboard; and every inventory is within its
  -- capacity, with positive quantities.
  pub Reach-IsServer : (names : Key → Key) {w : World W} → Reach names w → IsServer w
  Reach-IsServer names here = empty-IsServer names
  Reach-IsServer names (next r st) = Step-IsServer st (Reach-IsServer names r)
