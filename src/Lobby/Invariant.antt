-- ===== src/Lobby/Invariant.antt =====
-- The well-formedness of the lobby, and the writes to a room.
use realtime_game_server.Base.{
  ◌≤◌, ◌<◌, ◌≡◌, refl, ◌⊎◌, Bool, true, false, not, some, List, [], ◌∷◌, ◌++◌, inl, inr, arith, Key,
  ◌==◌, length, length-append, Bool-cases,
}
use realtime_game_server.Base.Dict.{lookup, lookup-insert, IsMap, insert-IsMap}
use realtime_game_server.Lobby.Rooms.{
  Db, Room, Member, waiting, is_active, has_member, new_member, update_ready, write_room, next_host,
  left_room,
}
use realtime_game_server.Lobby.Members.{
  Distinct, has_member-append, has_member-update_ready, Distinct-append, Distinct-update_ready,
  length-update_ready,
}
use realtime_game_server.Lobby.Seats.{seat, seats, seats-insert}

-- A room holds at most its capacity of players, each once; its host is one of them until it is
-- closed, and a closed room is empty.
pub record RoomIsValid (r : Room) : Type 0 where
  pub capacity : length r.members ≤ r.max_players
  pub distinct : Distinct r.members
  pub hosted : is_active r.status ≡ true → has_member r.host_id r.members ≡ true
  pub emptied : is_active r.status ≡ false → r.members ≡ []

-- Every room is valid and stands under its id, and no player is in two active rooms.
pub record IsValid (db : Db) : Type 0 where
  pub rooms_map : IsMap db.rooms
  pub keyed : (k : Key) (r : Room) → lookup k db.rooms ≡ some r → r.id ≡ k
  pub valid : (k : Key) (r : Room) → lookup k db.rooms ≡ some r → RoomIsValid r
  pub one_room : (p : Key) → seats p db.rooms ≤ 1

-- A write to a room that is there keeps the lobby valid, if the room stays valid and everyone whom
-- it seats newly was in no active room.
pub write_room-IsValid :
    (r old : Room) (db : Db)
    → lookup r.id db.rooms ≡ some old
    → RoomIsValid r
    → ((p : Key) → (seat p r ≤ seat p old) ⊎ (seats p db.rooms ≡ 0))
    → IsValid db
    → IsValid (write_room r db)
write_room-IsValid r old db found rv s v = record {
  rooms_map = insert-IsMap r.id r db.rooms v.rooms_map;
  keyed = λ k x e. ground (arith, lookup-insert r.id k r db.rooms, v.keyed k x);
  valid = λ k x e. elim (Bool-cases (r.id == k)) [
    | inl same ↦ let h : r ≡ x = ground (arith, lookup-insert r.id k r db.rooms) in rw (← h) rv
    | inr other ↦ v.valid k x (ground (arith, lookup-insert r.id k r db.rooms))
  ];
  one_room = λ p. ground (arith, seats-insert p r.id r old db.rooms found, s p, v.one_room p);
}

pub left_room-valid :
    (room : Room) (p : Key) (ms : List Member)
    → length ms ≤ room.max_players
    → Distinct ms
    → is_active room.status ≡ true
    → has_member room.host_id ms ≡ not (p == room.host_id)
    → RoomIsValid (left_room room p ms)
unfolding has_member next_host
left_room-valid room p [] c n a h = record {
  capacity = omega arith;
  distinct = tt;
  hosted = λ e. ground arith;
  emptied = λ e. refl;
}
left_room-valid room p (m ∷ ms) c n a h = record {
  capacity = c;
  distinct = n;
  hosted = λ e. ground (arith, h);
  emptied = λ e. ground arith;
}

-- The seats of a room that a player has left are seats of the room before.
pub left_room-seat :
    (room : Room) (p q : Key) (ms : List Member)
    → (has_member q ms ≡ true → has_member q room.members ≡ true)
    → seat q (left_room room p ms) ≤ seat q room
left_room-seat room p q [] h = omega arith
left_room-seat room p q (m ∷ ms) h = ground (arith, h)

pub new_room-valid :
    (r : Room)
    → r.members ≡ new_member r.host_id ∷ []
    → r.status ≡ waiting
    → 1 ≤ r.max_players
    → RoomIsValid r
unfolding has_member
new_room-valid r m w c = record {
  capacity = rw m c;
  distinct = rw m (refl, tt);
  hosted = λ e. rw m (ground arith);
  emptied = λ e. ground arith;
}

pub ready_room-valid :
    (r : Room) (p : Key) (ready : Bool)
    → RoomIsValid r
    → RoomIsValid (record r { members = update_ready p ready r.members })
ready_room-valid r p ready v = record {
  capacity = omega (arith, length-update_ready p ready r.members, v.capacity);
  distinct = Distinct-update_ready p ready r.members v.distinct;
  hosted = λ e. ground (arith, has_member-update_ready r.host_id p ready r.members, v.hosted e);
  emptied = λ e. rw (v.emptied e) (unfold update_ready in refl);
}

pub joined_room-valid :
    (r : Room) (p : Key)
    → RoomIsValid r
    → is_active r.status ≡ true
    → length r.members < r.max_players
    → has_member p r.members ≡ false
    → RoomIsValid (record r { members = r.members ++ new_member p ∷ [] })
joined_room-valid r p v a c n = record {
  capacity = omega (arith, length-append r.members (new_member p ∷ []));
  distinct = Distinct-append p r.members v.distinct n;
  hosted = λ e. ground (arith, has_member-append r.host_id p r.members, v.hosted e);
  emptied = λ e. absurd (ground arith);
}
