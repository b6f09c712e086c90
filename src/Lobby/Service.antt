-- ===== src/Lobby/Service.antt =====
-- src/application/services/lobby-service.ts: each method is an action on the database.
use realtime_game_server.Base.{
  ℕ, zero, suc, String, Bool, not, ◌||◌, Option, List, [], ◌∷◌, Key, ◌==◌, ltb, if◌then◌else◌,
  is_some, get_or, length, all,
}
use Prim.Native.String
use realtime_game_server.Base.Action.{
  not_found, conflict, forbidden, validation, Action, pure, gets, or_throw, throw_if, ◌>>=◌, ◌>>◌,
}
use realtime_game_server.Lobby.Rooms
use realtime_game_server.Lobby.Rooms.{
  Db, RoomEntity, RoomMemberEntity, in_progress, is_waiting, find_by_id, find_by_code,
  find_by_player_id, add_member, remove_member, update_status, list_waiting, create_session,
}

-- `env.MAX_PLAYERS_PER_ROOM`, and as the message prints it
pub record Settings : Type 0 where
  pub max_players_per_room : ℕ
  pub max_players_text : String

-- The loop that draws a code: `codes k` is the result of the k-th call of `generateRoomCode`, and
-- `attempts` the rounds that are left. The last draw is not checked.
unfoldable pub pick_code : (ℕ → Key) → ℕ → ℕ → Db → Key
pick_code codes zero k db = codes k
pick_code codes (suc attempts) k db =
    let next = pick_code codes attempts (suc k) db in
    if is_some (find_by_code (codes k) db) then next else codes k

abbrev pub code_attempts : ℕ
code_attempts = 5

unfoldable pub create_room :
    Settings → (ℕ → Key) → Key → Key → Key → Option ℕ → Action Db RoomEntity
create_room env codes id host_id name max_players = do
  let capacity = get_or max_players env.max_players_per_room
  throw_if (ltb capacity 2 || ltb env.max_players_per_room capacity)
      (validation (String.◌++◌ "maxPlayers must be between 2 and " env.max_players_text))
  existing ← gets (find_by_player_id host_id)
  throw_if (is_some existing) (conflict "Already in a room")
  code ← gets (pick_code codes code_attempts 0)
  Rooms.create id (record { name = name; host_id = host_id; max_players = capacity; code = code })

-- `upper` is `toUpperCase`
unfoldable pub join_room : (Key → Key) → Key → Key → Action Db RoomEntity
join_room upper player_id code = do
  existing ← gets (find_by_player_id player_id)
  throw_if (is_some existing) (conflict "Already in a room")
  found ← gets (find_by_code (upper code))
  room ← or_throw found (not_found "Room")
  add_member room.id player_id

unfoldable pub leave_room : Key → Action Db (Option RoomEntity)
leave_room player_id = do
  found ← gets (find_by_player_id player_id)
  room ← or_throw found (not_found "Room membership")
  remove_member room.id player_id

unfoldable pub set_ready : Key → Bool → Action Db RoomEntity
set_ready player_id ready = do
  found ← gets (find_by_player_id player_id)
  room ← or_throw found (not_found "Room membership")
  throw_if (not (is_waiting room.status)) (conflict "Cannot change ready state after game start")
  Rooms.set_ready room.id player_id ready

unfoldable pub get_room : Key → Action Db RoomEntity
get_room room_id = do found ← gets (find_by_id room_id); or_throw found (not_found "Room")

unfoldable pub get_my_room : Key → Action Db (Option RoomEntity)
get_my_room player_id = gets (find_by_player_id player_id)

unfoldable pub list_rooms : Action Db (List RoomEntity)
list_rooms = gets (list_waiting 20)

-- the sessions of all members; the calls do not read what the others write
unfoldable pub create_sessions : Key → List RoomMemberEntity → Action Db (Unit {0})
create_sessions room_id [] = pure tt
create_sessions room_id (m ∷ ms) =
    create_session room_id m.player_id m.username >> create_sessions room_id ms

abbrev pub is_prepared : Key → RoomMemberEntity → Bool
is_prepared host_id m = m.ready || m.player_id == host_id

unfoldable pub start_game : Key → Action Db RoomEntity
start_game player_id = do
  found ← gets (find_by_player_id player_id)
  room ← or_throw found (not_found "Room membership")
  throw_if (not (room.host_id == player_id)) (forbidden "Only the host can start the game")
  throw_if (not (is_waiting room.status)) (conflict "Room already started")
  throw_if (ltb (length room.members) 1) (validation "Need at least one player")
  throw_if (not (all (is_prepared room.host_id) room.members))
      (validation "All non-host players must be ready")
  updated ← update_status room.id in_progress
  create_sessions room.id room.members
  pure updated
