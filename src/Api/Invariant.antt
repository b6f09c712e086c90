-- ===== src/Api/Invariant.antt =====
-- What holds of the server between two requests, and of what a handler is built from.
use realtime_game_server.Base.{ℕ, ◌≡◌, refl, none, some, Option, ⊤}
use realtime_game_server.Base.Action.{Result, ok, err, Action}
use realtime_game_server.Base.Action.Keeps as Action
use realtime_game_server.Auth.Store
use realtime_game_server.Auth.Tokens.{Crypto, AccessTokenPayload}
use realtime_game_server.Economy
use realtime_game_server.Economy.Accounts.{AreAccounts}
use realtime_game_server.Inventory
use realtime_game_server.Inventory.Keeps as Inventories
use realtime_game_server.Player
use realtime_game_server.Player.Experience
use realtime_game_server.Lobby.Rooms
use realtime_game_server.Lobby.Invariant as Lobby
use realtime_game_server.Gateway.Connections.{IsConnected}
use realtime_game_server.Gateway.Sessions.{AreSessions}
use realtime_game_server.Api.Guard.{Headers, authenticate, assert_admin_key}
use realtime_game_server.Api.State.{
  World, Config, Body, Handler, answer, with_body, with_auth, with_admin, on_auth, on_economy,
  on_players, on_inventories, on_lobby,
}

pub record IsServer {W : Type 0} (w : World W) : Type 0 where
  pub connections : IsConnected w.gateway
  pub sessions : AreSessions w.gateway.sessions
  pub lobby : Lobby.IsValid w.gateway.lobby
  pub accounts : AreAccounts w.economy
  pub profiles : Experience.IsValid w.players
  pub inventories : Inventories.IsValid w.players.inventories

module _ {W : Type 0} (w : World W) where
  answered :
      {A : Type 0} (r : Result A) (status : ℕ) (body : A → Body) (m : Action (World W) A)
      → (m w).0 ≡ r
      → IsServer (m w).1
      → IsServer (answer status body m w).1
  answered (ok a) status body m e v = rw (e, answer) v
  answered (err x) status body m e v = rw (e, answer) v

  pub answer-IsServer :
      {A : Type 0} (status : ℕ) (body : A → Body) (m : Action (World W) A)
      → IsServer (m w).1
      → IsServer (answer status body m w).1
  answer-IsServer status body m v = answered (m w).0 status body m refl v

  pub with_body-IsServer :
      {B : Type 0} (body : Option B) (handler : B → Handler W)
      → IsServer w
      → ((b : B) → IsServer (handler b w).1)
      → IsServer (with_body body handler w).1
  with_body-IsServer none handler v h = v
  with_body-IsServer (some b) handler v h = h b

  authenticated :
      (r : Result AccessTokenPayload) (c : Crypto) (headers : Headers)
      (handler : AccessTokenPayload → Handler W)
      → authenticate c headers ≡ r
      → IsServer w
      → ((payload : AccessTokenPayload) → IsServer (handler payload w).1)
      → IsServer (with_auth c headers handler w).1
  authenticated (ok payload) c headers handler e v h = rw (e, with_auth) (h payload)
  authenticated (err _) c headers handler e v h = rw (e, with_auth) v

  pub with_auth-IsServer :
      (c : Crypto) (headers : Headers) (handler : AccessTokenPayload → Handler W)
      → IsServer w
      → ((payload : AccessTokenPayload) → IsServer (handler payload w).1)
      → IsServer (with_auth c headers handler w).1
  with_auth-IsServer c headers handler v h =
      authenticated (authenticate c headers) c headers handler refl v h

  admitted :
      (r : Result ⊤) (config : Config W) (headers : Headers) (handler : Handler W)
      → assert_admin_key config.timing_safe_equal config.admin_api_key headers.admin_key ≡ r
      → IsServer w
      → IsServer (handler w).1
      → IsServer (with_admin config headers handler w).1
  admitted (ok _) config headers handler e v h = rw (e, with_admin) h
  admitted (err _) config headers handler e v h = rw (e, with_admin) v

  pub with_admin-IsServer :
      (config : Config W) (headers : Headers) (handler : Handler W)
      → IsServer w
      → IsServer (handler w).1
      → IsServer (with_admin config headers handler w).1
  with_admin-IsServer config headers handler v h =
      admitted (assert_admin_key config.timing_safe_equal config.admin_api_key headers.admin_key)
        config headers handler refl v h

  module _ {A : Type 0} (v : IsServer w) where
    pub on_auth-IsServer : (m : Action Store.Db A) → IsServer (on_auth m w).1
    on_auth-IsServer m = record {
      connections = v.connections;
      sessions = v.sessions;
      lobby = v.lobby;
      accounts = v.accounts;
      profiles = v.profiles;
      inventories = v.inventories;
    }

    pub on_economy-IsServer :
        (m : Action Economy.Db A) → AreAccounts (m w.economy).1 → IsServer (on_economy m w).1
    on_economy-IsServer m h = record {
      connections = v.connections;
      sessions = v.sessions;
      lobby = v.lobby;
      accounts = h;
      profiles = v.profiles;
      inventories = v.inventories;
    }

    pub on_players-IsServer :
        (m : Action Player.Db A)
        → Experience.IsValid (m w.players).1
        → Inventories.IsValid (m w.players).1.inventories
        → IsServer (on_players m w).1
    on_players-IsServer m h k = record {
      connections = v.connections;
      sessions = v.sessions;
      lobby = v.lobby;
      accounts = v.accounts;
      profiles = h;
      inventories = k;
    }

    pub on_inventories-IsServer :
        (m : Action Inventory.Db A)
        → Inventories.IsValid (m w.players.inventories).1
        → IsServer (on_inventories m w).1
    on_inventories-IsServer m h = record {
      connections = v.connections;
      sessions = v.sessions;
      lobby = v.lobby;
      accounts = v.accounts;
      profiles = v.profiles;
      inventories = h;
    }

    pub on_lobby-IsServer :
        (m : Action Rooms.Db A) → Lobby.IsValid (m w.gateway.lobby).1 → IsServer (on_lobby m w).1
    on_lobby-IsServer m h = record {
      connections = v.connections;
      sessions = v.sessions;
      lobby = h;
      accounts = v.accounts;
      profiles = v.profiles;
      inventories = v.inventories;
    }

-- the server is well-formed after a handler, or an action, from `w`
pub record IsSafe {W : Type 0} (w : World W) (handler : Handler W) : Type 0 where
  pub at : IsServer (handler w).1

pub record Keeps {W A : Type 0} (w : World W) (m : Action (World W) A) : Type 0 where
  pub at : IsServer (m w).1

module _ {W : Type 0} {w : World W} where
  pub IsSafe-answer :
      {A : Type 0} (status : ℕ) (body : A → Body) (m : Action (World W) A)
      → Keeps w m
      → IsSafe w (answer status body m)
  IsSafe-answer status body m k = record { at = answer-IsServer w status body m k.at }

  module _ (v : IsServer w) where
    pub IsSafe-with_body :
        {B : Type 0} (body : Option B) (handler : B → Handler W)
        → ((b : B) → IsSafe w (handler b))
        → IsSafe w (with_body body handler)
    IsSafe-with_body body handler h = record {
      at = with_body-IsServer w body handler v (λ b. (h b).at);
    }

    pub IsSafe-with_auth :
        (c : Crypto) (headers : Headers) (handler : AccessTokenPayload → Handler W)
        → ((payload : AccessTokenPayload) → IsSafe w (handler payload))
        → IsSafe w (with_auth c headers handler)
    IsSafe-with_auth c headers handler h = record {
      at = with_auth-IsServer w c headers handler v (λ payload. (h payload).at);
    }

    pub IsSafe-with_admin :
        (config : Config W) (headers : Headers) (handler : Handler W)
        → IsSafe w handler
        → IsSafe w (with_admin config headers handler)
    IsSafe-with_admin config headers handler h = record {
      at = with_admin-IsServer w config headers handler v h.at;
    }

    module _ {A : Type 0} where
      pub Keeps-on_auth : (m : Action Store.Db A) → Keeps w (on_auth m)
      Keeps-on_auth m = record { at = on_auth-IsServer w v m }

      pub Keeps-on_economy :
          (m : Action Economy.Db A) → Action.Keeps AreAccounts m → Keeps w (on_economy m)
      Keeps-on_economy m k = record { at = on_economy-IsServer w v m (k.at w.economy v.accounts) }

      pub Keeps-on_players :
          (m : Action Player.Db A)
          → Action.Keeps Experience.IsValid m
          → Action.Keeps (λ db. Inventories.IsValid db.inventories) m
          → Keeps w (on_players m)
      Keeps-on_players m k l = record {
        at = on_players-IsServer w v m (k.at w.players v.profiles) (l.at w.players v.inventories);
      }

      pub Keeps-on_inventories :
          (m : Action Inventory.Db A)
          → Action.Keeps Inventories.IsValid m
          → Keeps w (on_inventories m)
      Keeps-on_inventories m k = record {
        at = on_inventories-IsServer w v m (k.at w.players.inventories v.inventories);
      }

      pub Keeps-on_lobby :
          (m : Action Rooms.Db A) → Lobby.IsValid (m w.gateway.lobby).1 → Keeps w (on_lobby m)
      Keeps-on_lobby m k = record { at = on_lobby-IsServer w v m k }
