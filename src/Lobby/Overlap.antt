-- ===== src/Lobby/Overlap.antt =====
-- Two joins of one player at once: `joinRoom` of src/application/services/lobby-service.ts cut between
-- its reads and the transaction of `addMember`.
use realtime_game_server.Base.{
  ◌≡◌, ◌≢◌, ◌<◌, false, none, some, ◌∷◌, [], ◌++◌, Key, is_some, length, arith,
}
use realtime_game_server.Base.Dict.{lookup, lookup-insert}
use realtime_game_server.Base.Action.{
  Action, ok, conflict, not_found, gets, or_throw, throw_if, ◌>>=◌, ◌>>◌,
}
use realtime_game_server.Lobby.Rooms.{
  Db, Room, RoomEntity, waiting, has_member, new_member, map_room, write_room, room_by_player,
  room_by_code, find_by_player_id, find_by_code, add_member,
}
use realtime_game_server.Lobby.Service.{join_room}

-- the reads of `joinRoom`: the room that it goes on to add the player to
unfoldable pub read_room : (Key → Key) → Key → Key → Action Db RoomEntity
read_room upper player_id code = do
  existing ← gets (find_by_player_id player_id)
  throw_if (is_some existing) (conflict "Already in a room")
  found ← gets (find_by_code (upper code))
  or_throw found (not_found "Room")

-- The reads and the transaction are the whole call.
read-add_member :
    (upper : Key → Key) (player_id code : Key) (db : Db)
    → join_room upper player_id code db
      ≡ (read_room upper player_id code >>= λ room. add_member room.id player_id) db
unfolding join_room read_room
read-add_member upper player_id code db = ground arith

-- A room that waits, has a place left and does not have the player.
pub record IsOpen (p : Key) (r : Room) (db : Db) : Type 0 where
  pub stored : lookup r.id db.rooms ≡ some r
  pub waits : r.status ≡ waiting
  pub place : length r.members < r.max_players
  pub new : has_member p r.members ≡ false

abbrev pub with_player : Key → Room → Room
with_player p r = record r { members = r.members ++ new_member p ∷ [] }

add_member_open :
    (p : Key) (r : Room) (db : Db)
    → IsOpen p r db
    → (add_member r.id p db).1 ≡ write_room (with_player p r) db
unfolding add_member
add_member_open p r db o =
    ground
      (arith, o.stored, o.waits, o.place, o.new, lookup-insert r.id r.id (with_player p r) db.rooms)

-- Where a player is in no open room and two other rooms wait, have a place and do not have the
-- player, two joins that both read before either adds the player are both let through, and the
-- player ends in both rooms.
pub read-add_member_overlap :
    (upper : Key → Key) (p c d : Key) (r s : Room) (db : Db)
    → room_by_player p db ≡ none
    → room_by_code (upper c) db ≡ some r
    → room_by_code (upper d) db ≡ some s
    → IsOpen p r db
    → IsOpen p s db
    → r.id ≢ s.id
    → let db' = (add_member s.id p (add_member r.id p db).1).1 in
      (read_room upper p c db ≡ (ok (map_room db.names r), db))
      × (read_room upper p d db ≡ (ok (map_room db.names s), db))
      × (lookup r.id db'.rooms ≡ some (with_player p r))
      × (lookup s.id db'.rooms ≡ some (with_player p s))
unfolding read_room find_by_player_id find_by_code
read-add_member_overlap upper p c d r s db free rc sd o o' apart =
    let db₁ = write_room (with_player p r) db in
    let there = lookup-insert r.id s.id (with_player p r) db.rooms in
    let open₁ : IsOpen p s db₁ = record {
      stored = ground (arith, there, o'.stored);
      waits = o'.waits;
      place = o'.place;
      new = o'.new;
    } in
    (
      ground arith,
      ground arith,
      rw (add_member_open p r db o, add_member_open p s db₁ open₁)
          (ground (
            arith,
            lookup-insert s.id r.id (with_player p s) db₁.rooms,
            lookup-insert r.id r.id (with_player p r) db.rooms,
          )),
      rw (add_member_open p r db o, add_member_open p s db₁ open₁)
          (ground (arith, lookup-insert s.id s.id (with_player p s) db₁.rooms)),
    )
