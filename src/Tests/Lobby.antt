-- ===== src/Tests/Lobby.antt =====
-- The lobby theorems at a lobby with one room.
use realtime_game_server.Base.{
  ℕ, ◌+◌, ◌≡◌, refl, ap, true, false, none, some, [], ◌∷◌, Key, ◌<◌, arith, is_some,
}
use realtime_game_server.Base.Dict.{lookup, values}
use realtime_game_server.Base.Action.{ok}
use realtime_game_server.Lobby.Rooms.{
  Db, Room, waiting, add_member, room_by_player, find_by_code, room_by_code, map_room, has_member,
}
use realtime_game_server.Lobby.Service.{
  Settings, pick_code, create_room, join_room, set_ready, start_game,
}
use realtime_game_server.Lobby.Overlap.{IsOpen, with_player, read_room, read-add_member_overlap}
use realtime_game_server.Lobby.Invariant.{IsValid}
use realtime_game_server.Lobby.Create.{is_taken, pick_code_free, pick_code_exhausted}
use realtime_game_server.Lobby.Start.{
  MayStart, started, started_db, start_game_success, start_game_needs,
}
use realtime_game_server.Lobby.Reach.{Step, Reach, Reach-IsValid, empty}

abbrev settings : Settings
settings = record { max_players_per_room = 8; max_players_text = "8" }

abbrev names : Key → Key
names p = p + 100

abbrev codes : ℕ → Key
codes k = 40 + k

-- player 1 opens room 9, player 2 joins it and is ready, player 1 starts the game
abbrev opened : Db
opened = (create_room settings codes 9 1 77 none (empty names)).1

abbrev joined : Db
joined = (join_room (λ c. c) 2 40 opened).1

abbrev prepared : Db
prepared = (set_ready 2 true joined).1

free_id : lookup 9 (empty names).rooms ≡ none
unfolding lookup
free_id = refl

history : Reach settings (λ c. c) names (start_game 1 prepared).1
history =
    Reach.next
      (Reach.next
        (Reach.next (Reach.next Reach.here (Step.create codes 9 1 77 none free_id))
          (Step.join 2 40))
        (Step.ready 2 true))
      (Step.start 1)

Reach-IsValid_example : IsValid (start_game 1 prepared).1
Reach-IsValid_example = Reach-IsValid settings (λ c. c) names history

abbrev room : Room
room = record {
  id = 9;
  code = 40;
  name = 77;
  host_id = 1;
  max_players = 8;
  status = waiting;
  members = record { player_id = 1; ready = false } ∷ record { player_id = 2; ready = true } ∷ [];
}

abbrev lobby : Db
lobby = record { rooms = (9, room) ∷ []; sessions = []; names = names }

seated : room_by_player 1 lobby ≡ some room
unfolding room_by_player has_member values
seated = refl

stored : lookup room.id lobby.rooms ≡ some room
unfolding lookup
stored = refl

may_start : MayStart 1 names room
may_start = record { host = refl; waiting = refl; someone = omega arith; prepared = refl }

start_game_success_example :
    start_game 1 lobby ≡ (ok (map_room names (started room)), started_db room lobby)
start_game_success_example = start_game_success 1 lobby room seated stored may_start

start_done : (start_game 1 lobby).0 ≡ ok (map_room names (started room))
start_done = ap (λ r. r.0) (start_game_success 1 lobby room seated stored may_start)

start_game_needs_example : MayStart 1 names room
start_game_needs_example =
    start_game_needs 1 lobby room (map_room names (started room)) seated start_done

second_free : is_taken codes lobby 1 ≡ false
unfolding find_by_code room_by_code values
second_free = refl

pick_code_free_example : is_some (find_by_code (pick_code codes 5 0 lobby) lobby) ≡ false
pick_code_free_example = pick_code_free codes lobby 5 0 1 (omega arith) second_free

taken : (i : ℕ) → i < 5 → is_taken (λ k. 40) lobby (0 + i) ≡ true
unfolding find_by_code room_by_code values
taken i h = refl

pick_code_exhausted_example : pick_code (λ k. 40) 5 0 lobby ≡ 40
pick_code_exhausted_example = pick_code_exhausted (λ k. 40) lobby 5 0 taken

-- two rooms that wait, with one player each
abbrev open_room : Key → Key → Key → Room
open_room id code host_id = record {
  id = id;
  code = code;
  name = 0;
  host_id = host_id;
  max_players = 4;
  status = waiting;
  members = record { player_id = host_id; ready = false } ∷ [];
}

abbrev two_rooms : Db
two_rooms = record {
  rooms = (1, open_room 1 31 7) ∷ (2, open_room 2 32 8) ∷ [];
  sessions = [];
  names = λ p. p;
}

first-IsOpen : IsOpen 5 (open_room 1 31 7) two_rooms
unfolding lookup has_member
first-IsOpen = record { stored = refl; waits = refl; place = omega arith; new = refl }

second-IsOpen : IsOpen 5 (open_room 2 32 8) two_rooms
unfolding lookup has_member
second-IsOpen = record { stored = refl; waits = refl; place = omega arith; new = refl }

nowhere : room_by_player 5 two_rooms ≡ none
unfolding room_by_player values has_member
nowhere = refl

coded :
    (room_by_code 31 two_rooms ≡ some (open_room 1 31 7))
    × (room_by_code 32 two_rooms ≡ some (open_room 2 32 8))
unfolding room_by_code values
coded = (refl, refl)

read-add_member_overlap_example :
    let db = (add_member 2 5 (add_member 1 5 two_rooms).1).1 in
    (read_room (λ c. c) 5 31 two_rooms ≡ (ok (map_room (λ p. p) (open_room 1 31 7)), two_rooms))
    × (read_room (λ c. c) 5 32 two_rooms ≡ (ok (map_room (λ p. p) (open_room 2 32 8)), two_rooms))
    × (lookup 1 db.rooms ≡ some (with_player 5 (open_room 1 31 7)))
    × (lookup 2 db.rooms ≡ some (with_player 5 (open_room 2 32 8)))
read-add_member_overlap_example =
    read-add_member_overlap (λ c. c) 5 31 32 (open_room 1 31 7) (open_room 2 32 8) two_rooms nowhere
      coded.0 coded.1 first-IsOpen second-IsOpen (λ e. absurd (ground arith))
