-- ===== src/Lobby/Start.antt =====
-- Starting a game: who may, and what it writes.
use realtime_game_server.Base.{
  ◌≤◌, ◌≡◌, ◌∙◌, ◌⊎◌, true, none, some, List, [], ◌∷◌, ◌++◌, inl, inr, map, arith, Key, ◌==◌,
  length, all, Option-cases,
}
use mathlib.Core.List.{append_assoc, append-nil}
use realtime_game_server.Base.Dict.{lookup, insert}
use realtime_game_server.Base.Action.{ok, err, not_found}
use realtime_game_server.Lobby.Rooms.{
  Db, Room, RoomEntity, RoomMemberEntity, SessionRow, active, in_progress, is_active, is_waiting,
  write_room, map_room, map_member, update_status, create_session, room_by_player,
  find_by_player_id,
}
use realtime_game_server.Lobby.Invariant.{IsValid, write_room-IsValid}
use realtime_game_server.Lobby.Keeps.{find_room}
use realtime_game_server.Lobby.Service.{is_prepared, create_sessions, start_game}

abbrev pub session_of : Key → RoomMemberEntity → SessionRow
session_of room_id m = record {
  room_id = room_id;
  player_id = m.player_id;
  username = m.username;
  status = active;
}

create_sessions_lem :
    (room_id : Key) (ms : List RoomMemberEntity) (db : Db)
    → create_sessions room_id ms db
      ≡ (ok tt, record db { sessions = db.sessions ++ map (session_of room_id) ms })
unfolding create_sessions create_session
create_sessions_lem room_id [] db = simp append-nil
create_sessions_lem room_id (m ∷ ms) db =
    create_sessions_lem room_id ms
      (record db { sessions = db.sessions ++ session_of room_id m ∷ [] })
    ∙ simp append_assoc

abbrev pub started : Room → Room
started r = record r { status = in_progress }

-- the database after a start of room `r`: its status, and one session for each member
abbrev pub started_db : Room → Db → Db
started_db r db = record db {
  rooms = insert r.id (started r) db.rooms;
  sessions = db.sessions ++ map (session_of r.id) (map (map_member db.names r.id) r.members);
}

-- The conditions under which the player `p` may start the room `r`.
pub record MayStart (p : Key) (names : Key → Key) (r : Room) : Type 0 where
  pub host : (r.host_id == p) ≡ true
  pub waiting : is_waiting r.status ≡ true
  pub someone : 1 ≤ length (map_room names r).members
  pub prepared : all (is_prepared r.host_id) (map_room names r).members ≡ true

-- If the player's room is stored under its id and the player may start it, the start succeeds: it
-- answers the room in progress, writes its status, and adds one session for each member.
pub start_game_success :
    (p : Key) (db : Db) (r : Room)
    → room_by_player p db ≡ some r
    → lookup r.id db.rooms ≡ some r
    → MayStart p db.names r
    → start_game p db ≡ (ok (map_room db.names (started r)), started_db r db)
unfolding start_game find_by_player_id update_status
start_game_success p db r e f may = ground (
  arith,
  may.host,
  may.waiting,
  may.someone,
  may.prepared,
  create_sessions_lem r.id (map_room db.names r).members (write_room (started r) db),
)

-- A start that succeeds was by the host of a waiting room with at least one member whose other
-- members were all ready.
pub start_game_needs :
    (p : Key) (db : Db) (r : Room) (x : RoomEntity)
    → room_by_player p db ≡ some r
    → (start_game p db).0 ≡ ok x
    → MayStart p db.names r
unfolding start_game find_by_player_id
start_game_needs p db r x e h = record {
  host = ground arith;
  waiting = ground arith;
  someone = ground arith;
  prepared = ground arith;
}

start_game-absent :
    (p : Key) (db : Db)
    → room_by_player p db ≡ none
    → start_game p db ≡ (err (not_found "Room membership"), db)
unfolding start_game find_by_player_id
start_game-absent p db e = ground arith

-- The database after a start: unchanged, or the start has succeeded.
start_game_cases :
    (p : Key) (db : Db) (r : Room)
    → room_by_player p db ≡ some r
    → lookup r.id db.rooms ≡ some r
    → ((start_game p db).1 ≡ db)
      ⊎ ((start_game p db ≡ (ok (map_room db.names (started r)), started_db r db)))
unfolding start_game find_by_player_id update_status
start_game_cases p db r e f =
    ground
      (arith, create_sessions_lem r.id (map_room db.names r).members (write_room (started r) db))

started-IsValid :
    (r : Room) (db : Db)
    → lookup r.id db.rooms ≡ some r
    → is_active r.status ≡ true
    → IsValid db
    → IsValid (started_db r db)
started-IsValid r db f a v =
    let rv = v.valid r.id r f in
    let w : IsValid (write_room (started r) db) =
      write_room-IsValid (started r) r db f
        (record {
          capacity = rv.capacity;
          distinct = rv.distinct;
          hosted = λ e. rv.hosted a;
          emptied = λ e. absurd (ground arith);
        })
        (λ q. inl (ground arith)) v in
    record { rooms_map = w.rooms_map; keyed = w.keyed; valid = w.valid; one_room = w.one_room }

pub start_game-IsValid : (p : Key) (db : Db) → IsValid db → IsValid (start_game p db).1
start_game-IsValid p db v = elim (Option-cases (room_by_player p db)) [
  | inl absent ↦ rw (start_game-absent p db absent) v
  | inr (r, e) ↦
      let found = find_room p db r v e in
      elim (start_game_cases p db r e found.at) [
        | inl same ↦ rw same v
        | inr done ↦ rw done (started-IsValid r db found.at found.active v)
      ]
]
