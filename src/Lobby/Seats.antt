-- ===== src/Lobby/Seats.antt =====
-- How many active rooms a player is in, and how the writes change it.
use realtime_game_server.Base.{
  ℕ, ◌+◌, ◌≤◌, ◌≡◌, refl, Bool, true, ◌&&◌, none, some, [], ◌∷◌, arith, Key, if◌then◌else◌, find?,
}
use realtime_game_server.Base.Dict.{Dict, lookup, insert, values, IsMap, find?-values}
use realtime_game_server.Lobby.Rooms.{Room, Db, has_member, is_active, room_by_player}

abbrev pub is_seated : Key → Room → Bool
is_seated p r = is_active r.status && has_member p r.members

abbrev pub seat : Key → Room → ℕ
seat p r = if is_seated p r then 1 else 0

unfoldable pub seats : Key → Dict Room → ℕ
seats p [] = 0
seats p ((_, r) ∷ d) = seat p r + seats p d

pub seats-insert :
    (p k : Key) (r old : Room) (d : Dict Room)
    → lookup k d ≡ some old
    → seats p (insert k r d) + seat p old ≡ seats p d + seat p r
unfolding seats lookup insert
seats-insert p k r old [] h = ground arith
seats-insert p k r old ((j, x) ∷ d) h = ground (arith, seats-insert p k r old d)

pub seats-insert_new :
    (p k : Key) (r : Room) (d : Dict Room)
    → lookup k d ≡ none
    → seats p (insert k r d) ≡ seats p d + seat p r
unfolding seats lookup insert
seats-insert_new p k r [] h = ground arith
seats-insert_new p k r ((j, x) ∷ d) h = ground (arith, seats-insert_new p k r d)

-- A seat that is found is one of them.
pub seat-le-seats :
    (p k : Key) (r : Room) (d : Dict Room) → lookup k d ≡ some r → seat p r ≤ seats p d
unfolding seats lookup
seat-le-seats p k r [] h = ground arith
seat-le-seats p k r ((j, x) ∷ d) h = ground (arith, seat-le-seats p k r d)

-- The search for the room of a player finds none exactly where the player has no seat.
seats_zero : (p : Key) (d : Dict Room) → find? (is_seated p) (values d) ≡ none → seats p d ≡ 0
unfolding seats values
seats_zero p [] h = refl
seats_zero p ((j, x) ∷ d) h = ground (arith, seats_zero p d)

pub seats-room_by_player-none :
    (p : Key) (db : Db) → room_by_player p db ≡ none → seats p db.rooms ≡ 0
unfolding room_by_player
seats-room_by_player-none p db h = seats_zero p db.rooms h

pub room_by_player_found :
    (p : Key) (db : Db) (r : Room)
    → IsMap db.rooms
    → room_by_player p db ≡ some r
    → (k : Key) × (lookup k db.rooms ≡ some r) × (is_seated p r ≡ true)
unfolding room_by_player
room_by_player_found p db r m h = find?-values (is_seated p) db.rooms r m h
