-- ===== src/Lobby/Sessions.antt =====
-- The rows of src/infrastructure/database/prisma-session-repository.ts that are not ended:
-- `findActiveByRoom` and `endAllForRoom`. Nothing calls these two; the end's time is left out.
use realtime_game_server.Base.{
  ◌≡◌, Bool, true, false, ◌&&◌, List, [], ◌∷◌, Key, ◌==◌, if◌then◌else◌, arith, filter,
}
use realtime_game_server.Base.Action.{Action, modify}
use realtime_game_server.Lobby.Rooms.{Db, SessionRow, SessionStatus, active, disconnected, ended}

-- `status: { in: ['ACTIVE', 'DISCONNECTED'] }`
abbrev pub is_open : SessionStatus → Bool
is_open active = true
is_open disconnected = true
is_open ended = false

abbrev pub is_open_in : Key → SessionRow → Bool
is_open_in room_id row = row.room_id == room_id && is_open row.status

unfoldable pub find_active_by_room : Key → Db → List SessionRow
find_active_by_room room_id db = filter (is_open_in room_id) db.sessions

abbrev pub ended_in : Key → SessionRow → SessionRow
ended_in room_id row = if is_open_in room_id row then record row { status = ended } else row

unfoldable pub end_rows : Key → List SessionRow → List SessionRow
end_rows room_id [] = []
end_rows room_id (row ∷ rows) = ended_in room_id row ∷ end_rows room_id rows

unfoldable pub end_all_for_room : Key → Action Db (Unit {0})
end_all_for_room room_id = modify (λ db. record db { sessions = end_rows room_id db.sessions })

ended_elsewhere :
    (r q : Key) (row : SessionRow)
    → (r == q) ≡ false
    → is_open_in q row ≡ true
    → ended_in r row ≡ row
ended_elsewhere r q row apart h = ground (arith, apart, h)

open_ended :
    (r q : Key) (row : SessionRow)
    → is_open_in q (ended_in r row) ≡ (if r == q then false else is_open_in q row)
open_ended r q row = ground arith

find_active-end_rows :
    (r q : Key) (rows : List SessionRow)
    → filter (is_open_in q) (end_rows r rows) ≡ (if r == q then [] else filter (is_open_in q) rows)
unfolding end_rows
find_active-end_rows r q [] = ground arith
find_active-end_rows r q (row ∷ rows) =
    ground (arith, find_active-end_rows r q rows, open_ended r q row, ended_elsewhere r q row)

-- Ending a room's sessions leaves none of them open and every other room's as they were.
find_active-end_all :
    (r q : Key) (db : Db)
    → find_active_by_room q (end_all_for_room r db).1
      ≡ (if r == q then [] else find_active_by_room q db)
unfolding find_active_by_room end_all_for_room
find_active-end_all r q db = find_active-end_rows r q db.sessions
