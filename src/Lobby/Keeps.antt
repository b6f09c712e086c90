-- ===== src/Lobby/Keeps.antt =====
-- The methods of the lobby service and the well-formedness of the lobby.
use realtime_game_server.Base.{
  ◌≤◌, ◌<◌, ◌≡◌, refl, ◌⊎◌, Bool, true, false, none, some, List, [], ◌∷◌, ◌++◌, inl, inr, arith,
  Key, ◌==◌, length, Option-cases, Bool-cases,
}
use realtime_game_server.Base.Dict.{lookup, lookup-insert, find?-values}
use realtime_game_server.Lobby.Rooms
use realtime_game_server.Lobby.Rooms.{
  Db, Room, RoomEntity, Member, waiting, in_progress, closed, is_active, has_member, new_member,
  delete_member, update_ready, write_room, left_room, create, add_member, remove_member,
  update_status, room_by_player, room_by_code, find_by_player_id, find_by_code,
}
use realtime_game_server.Lobby.Members.{
  has_member-append, has_member-delete_member, has_member-update_ready, Distinct-delete_member,
  length-delete_member-le,
}
use realtime_game_server.Lobby.Seats.{seat, seats, seats-room_by_player-none, room_by_player_found}
use realtime_game_server.Lobby.Invariant.{
  RoomIsValid, IsValid, write_room-IsValid, left_room-valid, left_room-seat, ready_room-valid,
  joined_room-valid,
}
use realtime_game_server.Lobby.Service.{join_room, leave_room, set_ready}

-- The room of a player, as the service finds it.
pub record Found (p : Key) (db : Db) (r : Room) : Type 0 where
  pub at : lookup r.id db.rooms ≡ some r
  pub room : RoomIsValid r
  pub active : is_active r.status ≡ true
  pub member : has_member p r.members ≡ true

pub find_room :
    (p : Key) (db : Db) (r : Room) → IsValid db → room_by_player p db ≡ some r → Found p db r
find_room p db r v e =
    let (k, at_k, seated) = room_by_player_found p db r v.rooms_map e in
    record {
      at = ground (arith, v.keyed k r at_k);
      room = v.valid k r at_k;
      active = ground arith;
      member = ground arith;
    }

abbrev pub without_player : Room → Key → Room
without_player r p = left_room r p (delete_member p r.members)

-- Leaving writes the room without the player, or changes nothing.
leave_room-writes :
    (p : Key) (db : Db) (r : Room)
    → room_by_player p db ≡ some r
    → lookup r.id db.rooms ≡ some r
    → (leave_room p db).1 ≡ write_room (without_player r p) db
unfolding leave_room find_by_player_id remove_member
leave_room-writes p db r e f = ground arith

id-left_room : (r : Room) (p : Key) (ms : List Member) → (left_room r p ms).id ≡ r.id
id-left_room r p [] = refl
id-left_room r p (m ∷ ms) = refl

leave_room-absent : (p : Key) (db : Db) → room_by_player p db ≡ none → (leave_room p db).1 ≡ db
unfolding leave_room find_by_player_id
leave_room-absent p db e = ground arith

pub leave_room-IsValid : (p : Key) (db : Db) → IsValid db → IsValid (leave_room p db).1
leave_room-IsValid p db v = elim (Option-cases (room_by_player p db)) [
  | inl absent ↦ rw (leave_room-absent p db absent) v
  | inr (r, e) ↦
      let found = find_room p db r v e in
      let ms : List Member = delete_member p r.members in
      rw (leave_room-writes p db r e found.at) (
        write_room-IsValid (left_room r p ms) r db (rw (id-left_room r p ms) found.at)
          (left_room-valid r p ms
            (omega (arith, length-delete_member-le p r.members, found.room.capacity))
            (Distinct-delete_member p r.members found.room.distinct) found.active
            (ground (
              arith,
              has_member-delete_member r.host_id p r.members,
              found.room.hosted found.active,
            )))
          (λ q.
            inl (
              left_room-seat r p q ms
                (λ h. ground (arith, has_member-delete_member q p r.members))))
          v)
]

abbrev ready_room : Room → Key → Bool → Room
ready_room r p ready = record r { members = update_ready p ready r.members }

set_ready-writes :
    (p : Key) (ready : Bool) (db : Db) (r : Room)
    → room_by_player p db ≡ some r
    → lookup r.id db.rooms ≡ some r
    → ((set_ready p ready db).1 ≡ db)
      ⊎ ((set_ready p ready db).1 ≡ write_room (ready_room r p ready) db)
unfolding set_ready find_by_player_id Rooms.set_ready
set_ready-writes p ready db r e f = ground arith

set_ready-absent :
    (p : Key) (ready : Bool) (db : Db) → room_by_player p db ≡ none → (set_ready p ready db).1 ≡ db
unfolding set_ready find_by_player_id
set_ready-absent p ready db e = ground arith

pub set_ready-IsValid :
    (p : Key) (ready : Bool) (db : Db) → IsValid db → IsValid (set_ready p ready db).1
set_ready-IsValid p ready db v = elim (Option-cases (room_by_player p db)) [
  | inl absent ↦ rw (set_ready-absent p ready db absent) v
  | inr (r, e) ↦
      let found = find_room p db r v e in
      elim (set_ready-writes p ready db r e found.at) [
        | inl same ↦ rw same v
        | inr written ↦ rw written (
            write_room-IsValid (ready_room r p ready) r db found.at
              (ready_room-valid r p ready found.room)
              (λ q. inl (ground (arith, has_member-update_ready q p ready r.members))) v)
      ]
]

abbrev joined_room : Room → Key → Room
joined_room r p = record r { members = r.members ++ new_member p ∷ [] }

-- What a join writes, where the code names a room.
join_room-writes :
    (upper : Key → Key) (p code : Key) (db : Db) (r : Room)
    → room_by_code (upper code) db ≡ some r
    → lookup r.id db.rooms ≡ some r
    → ((join_room upper p code db).1 ≡ db)
      ⊎ ((room_by_player p db ≡ none)
          × (is_active r.status ≡ true)
          × (length r.members < r.max_players)
          × (has_member p r.members ≡ false)
          × ((join_room upper p code db).1 ≡ write_room (joined_room r p) db))
unfolding join_room find_by_player_id find_by_code add_member
join_room-writes upper p code db r e f =
    ground (arith, lookup-insert r.id r.id (joined_room r p) db.rooms)

join_room-absent :
    (upper : Key → Key) (p code : Key) (db : Db)
    → room_by_code (upper code) db ≡ none
    → (join_room upper p code db).1 ≡ db
unfolding join_room find_by_player_id find_by_code
join_room-absent upper p code db e = ground arith

room_by_code_found :
    (code : Key) (db : Db) (r : Room)
    → IsValid db
    → room_by_code code db ≡ some r
    → RoomIsValid r × (lookup r.id db.rooms ≡ some r)
unfolding room_by_code
room_by_code_found code db r v e =
    let (k, at_k, same) = find?-values (λ x. x.code == code) db.rooms r v.rooms_map e in
    (v.valid k r at_k, ground (arith, v.keyed k r at_k))

joined_seat :
    (p q : Key) (db : Db) (r : Room)
    → room_by_player p db ≡ none
    → (seat q (joined_room r p) ≤ seat q r) ⊎ (seats q db.rooms ≡ 0)
joined_seat p q db r free = elim (Bool-cases (p == q)) [
  | inl same ↦ let e : p ≡ q = ground arith in inr (rw (← e) (seats-room_by_player-none p db free))
  | inr other ↦ inl (ground (arith, has_member-append q p r.members))
]

pub join_room-IsValid :
    (upper : Key → Key) (p code : Key) (db : Db)
    → IsValid db
    → IsValid (join_room upper p code db).1
join_room-IsValid upper p code db v = elim (Option-cases (room_by_code (upper code) db)) [
  | inl absent ↦ rw (join_room-absent upper p code db absent) v
  | inr (r, e) ↦
      let (k, at_k) = room_by_code_found (upper code) db r v e in
      elim (join_room-writes upper p code db r e at_k) [
        | inl same ↦ rw same v
        | inr (free, active, room_left, new, written) ↦ rw written (
            write_room-IsValid (joined_room r p) r db at_k
              (joined_room-valid r p k active room_left new) (λ q. joined_seat p q db r free) v)
      ]
]
