-- ===== src/Lobby/Rooms.antt =====
-- src/infrastructure/database/prisma-room-repository.ts over the tables of prisma/schema.prisma.
-- A row of `rooms` stands with its `members` rows, in the order of `joined_at`, and under its id, in
-- the order of creation. The uuid of a new room is an argument. The ids and times of the other rows,
-- which no code reads, are left out: a member row is found by its unique pair (room, player).
use realtime_game_server.Base.{
  ℕ, Bool, true, false, not, ◌&&◌, Option, none, some, List, [], ◌∷◌, ◌++◌, map, Key, ◌==◌, leb,
  if◌then◌else◌, length, any, find?, filter, take,
}
use realtime_game_server.Base.Dict.{Dict, lookup, insert, values}
use realtime_game_server.Base.Action.{
  not_found, conflict, unexpected, ok, err, Action, pure, gets, or_throw, throw_if, modify,
  transaction, ◌>>=◌, ◌>>◌,
}
use mathlib.Core.List.{reverse}

pub data RoomStatus : Type 0 where
  waiting in_progress closed : RoomStatus

pub record Member : Type 0 where
  pub player_id : Key
  pub ready : Bool

pub record Room : Type 0 where
  pub id : Key
  pub code : Key
  pub name : Key
  pub host_id : Key
  pub max_players : ℕ
  pub status : RoomStatus
  pub members : List Member

pub data SessionStatus : Type 0 where
  active disconnected ended : SessionStatus

-- a row of `sessions`; `username` is its metadata
pub record SessionRow : Type 0 where
  pub room_id : Key
  pub player_id : Key
  pub username : Key
  pub status : SessionStatus

-- `names` is the column `username` of the table `players`
pub record Db : Type 0 where
  pub rooms : Dict Room
  pub sessions : List SessionRow
  pub names : Key → Key

pub record RoomMemberEntity : Type 0 where
  pub room_id : Key
  pub player_id : Key
  pub username : Key
  pub ready : Bool

pub record RoomEntity : Type 0 where
  pub id : Key
  pub code : Key
  pub name : Key
  pub host_id : Key
  pub max_players : ℕ
  pub status : RoomStatus
  pub members : List RoomMemberEntity

pub record CreateRoomInput : Type 0 where
  pub name : Key
  pub host_id : Key
  pub max_players : ℕ
  pub code : Key

abbrev pub map_member : (Key → Key) → Key → Member → RoomMemberEntity
map_member names room_id m = record {
  room_id = room_id;
  player_id = m.player_id;
  username = names m.player_id;
  ready = m.ready;
}

abbrev pub map_room : (Key → Key) → Room → RoomEntity
map_room names r = record {
  id = r.id;
  code = r.code;
  name = r.name;
  host_id = r.host_id;
  max_players = r.max_players;
  status = r.status;
  members = map (map_member names r.id) r.members;
}

abbrev pub map_found : Db → Option Room → Option RoomEntity
map_found db none = none
map_found db (some r) = some (map_room db.names r)

abbrev pub is_waiting : RoomStatus → Bool
is_waiting waiting = true
is_waiting _ = false

-- `status in ['WAITING', 'IN_PROGRESS']`
abbrev pub is_active : RoomStatus → Bool
is_active closed = false
is_active _ = true

unfoldable pub has_member : Key → List Member → Bool
has_member player_id members = any (λ m. m.player_id == player_id) members

abbrev pub new_member : Key → Member
new_member player_id = record { player_id = player_id; ready = false }

-- `deleteMany` of the member rows of a player
unfoldable pub delete_member : Key → List Member → List Member
delete_member player_id [] = []
delete_member player_id (m ∷ ms) =
    let rest = delete_member player_id ms in if m.player_id == player_id then rest else m ∷ rest

-- `update` of the row of a player
unfoldable pub update_ready : Key → Bool → List Member → List Member
update_ready player_id ready [] = []
update_ready player_id ready (m ∷ ms) =
    (if m.player_id == player_id then record m { ready = ready } else m)
    ∷ update_ready player_id ready ms

abbrev pub write_room : Room → Db → Db
write_room r db = record db { rooms = insert r.id r db.rooms }

-- `code` is a unique column
unfoldable pub create : Key → CreateRoomInput → Action Db RoomEntity
create id input db =
    let room : Room = record {
      id = id;
      code = input.code;
      name = input.name;
      host_id = input.host_id;
      max_players = input.max_players;
      status = waiting;
      members = new_member input.host_id ∷ [];
    } in
    if any (λ r. r.code == input.code) (values db.rooms)
    then (err (unexpected "P2002"), db)
    else (ok (map_room db.names room), write_room room db)

unfoldable pub room_by_code : Key → Db → Option Room
room_by_code code db = find? (λ r. r.code == code) (values db.rooms)

unfoldable pub room_by_player : Key → Db → Option Room
room_by_player player_id db =
    find? (λ r. is_active r.status && has_member player_id r.members) (values db.rooms)

unfoldable pub find_by_id : Key → Db → Option RoomEntity
find_by_id id db = map_found db (lookup id db.rooms)

unfoldable pub find_by_code : Key → Db → Option RoomEntity
find_by_code code db = map_found db (room_by_code code db)

unfoldable pub find_by_player_id : Key → Db → Option RoomEntity
find_by_player_id player_id db = map_found db (room_by_player player_id db)

unfoldable pub add_member : Key → Key → Action Db RoomEntity
add_member room_id player_id = transaction (do
  found ← gets (λ db. lookup room_id db.rooms)
  room ← or_throw found (not_found "Room")
  throw_if (not (is_waiting room.status)) (conflict "Room is not accepting players")
  throw_if (leb room.max_players (length room.members)) (conflict "Room is full")
  throw_if (has_member player_id room.members) (conflict "Already in room")
  modify (write_room (record room { members = room.members ++ new_member player_id ∷ [] }))
  updated ← gets (λ db. lookup room_id db.rooms)
  names ← gets (λ db. db.names)
  room' ← or_throw updated (unexpected "P2025")
  pure (map_room names room'))

-- the host after a player has left: the member who joined first, if the host left
unfoldable pub next_host : Room → Key → List Member → Key
next_host room player_id [] = room.host_id
next_host room player_id (m ∷ _) = if room.host_id == player_id then m.player_id else room.host_id

abbrev pub left_room : Room → Key → List Member → Room
left_room room player_id [] = record room { members = []; status = closed }
left_room room player_id (m ∷ ms) = record room {
  members = m ∷ ms;
  host_id = next_host room player_id (m ∷ ms);
}

-- The deletion of the member row and the update of the room's row are one write here: they stand in
-- one transaction.
unfoldable pub remove_member : Key → Key → Action Db (Option RoomEntity)
remove_member room_id player_id = transaction (do
  found ← gets (λ db. lookup room_id db.rooms)
  room ← or_throw found (not_found "Room")
  let remaining = delete_member player_id room.members
  let room' = left_room room player_id remaining
  modify (write_room room')
  names ← gets (λ db. db.names)
  if length remaining == 0 then pure none else pure (some (map_room names room')))

unfoldable pub set_ready : Key → Key → Bool → Action Db RoomEntity
set_ready room_id player_id ready = do
  found ← gets (λ db. lookup room_id db.rooms)
  room ← or_throw found (not_found "Room membership")
  throw_if (not (has_member player_id room.members)) (not_found "Room membership")
  let room' = record room { members = update_ready player_id ready room.members }
  modify (write_room room')
  names ← gets (λ db. db.names)
  pure (map_room names room')

unfoldable pub update_status : Key → RoomStatus → Action Db RoomEntity
update_status room_id status = do
  found ← gets (λ db. lookup room_id db.rooms)
  room ← or_throw found (unexpected "P2025")
  let room' = record room { status = status }
  modify (write_room room')
  names ← gets (λ db. db.names)
  pure (map_room names room')

-- the newest first
unfoldable pub list_waiting : ℕ → Db → List RoomEntity
list_waiting limit db =
    map (map_room db.names)
      (take limit (reverse (filter (λ r. is_waiting r.status) (values db.rooms))))

-- `create` of src/infrastructure/database/prisma-session-repository.ts
unfoldable pub create_session : Key → Key → Key → Action Db (Unit {0})
create_session room_id player_id username = modify (λ db. record db {
  sessions =
      db.sessions
      ++ (record { room_id = room_id; player_id = player_id; username = username; status = active })
        ∷ [];
})
