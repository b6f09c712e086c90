-- ===== src/Lobby/Reach.antt =====
-- Any sequence of calls of the lobby service, from an empty database.
use realtime_game_server.Base.{ℕ, ◌≡◌, none, Option, Bool, Key, [], arith}
use realtime_game_server.Base.Dict.{lookup}
use realtime_game_server.Lobby.Rooms.{Db}
use realtime_game_server.Lobby.Service.{
  Settings, create_room, join_room, leave_room, set_ready, start_game,
}
use realtime_game_server.Lobby.Invariant.{IsValid}
use realtime_game_server.Lobby.Keeps.{leave_room-IsValid, set_ready-IsValid, join_room-IsValid}
use realtime_game_server.Lobby.Start.{start_game-IsValid}
use realtime_game_server.Lobby.Seats.{seats}
use realtime_game_server.Lobby.Create.{create_room-IsValid}

abbrev pub empty : (Key → Key) → Db
empty names = record { rooms = []; sessions = []; names = names }

-- One call of the service, whether it returns or throws. The id of a new room is one that no room
-- has.
pub data Step (env : Settings) (upper : Key → Key) (db : Db) : Db → Type 0 where
  create :
      (codes : ℕ → Key) (id host_id name : Key) (max_players : Option ℕ)
      → lookup id db.rooms ≡ none
      → Step env upper db (create_room env codes id host_id name max_players db).1
  join : (player_id code : Key) → Step env upper db (join_room upper player_id code db).1
  leave : (player_id : Key) → Step env upper db (leave_room player_id db).1
  ready : (player_id : Key) (r : Bool) → Step env upper db (set_ready player_id r db).1
  start : (player_id : Key) → Step env upper db (start_game player_id db).1

pub data Reach (env : Settings) (upper : Key → Key) (names : Key → Key) : Db → Type 0 where
  here : Reach env upper names (empty names)
  next : {s t : Db} → Reach env upper names s → Step env upper s t → Reach env upper names t

module _ (env : Settings) (upper : Key → Key) where
  Step-IsValid : {s t : Db} → Step env upper s t → IsValid s → IsValid t
  Step-IsValid {s} (create codes id host_id name max_players unused) v =
      create_room-IsValid env codes id host_id name max_players s unused v
  Step-IsValid {s} (join p code) v = join_room-IsValid upper p code s v
  Step-IsValid {s} (leave p) v = leave_room-IsValid p s v
  Step-IsValid {s} (ready p r) v = set_ready-IsValid p r s v
  Step-IsValid {s} (start p) v = start_game-IsValid p s v

  pub empty-IsValid : (names : Key → Key) → IsValid (empty names)
  unfolding lookup seats
  empty-IsValid names = record {
    rooms_map = tt;
    keyed = λ k r e. ground arith;
    valid = λ k r e. ground arith;
    one_room = λ p. omega arith;
  }

  -- In every database that calls of the lobby service lead to from an empty one, where the id of a
  -- new room is unused, a room holds at most its capacity of players, each once; a room that is not
  -- closed has its host among its members and a closed one is empty; and no player is in two rooms
  -- that are not closed.
  pub Reach-IsValid : (names : Key → Key) {db : Db} → Reach env upper names db → IsValid db
  Reach-IsValid names here = empty-IsValid names
  Reach-IsValid names (next r st) = Step-IsValid st (Reach-IsValid names r)
