-- ===== src/Tests/Players.antt =====
-- The theorems on experience and the leaderboard at two players.
use mathlib.Core.List.{Perm, Pairwise, Pairwise-singleton, forall_mem-cons, not-mem-nil}
use mathlib.Core.List.Perm
use mathlib.Core.Bool.{Bool-set}
use realtime_game_server.Base.{
  true, false, ◌≡◌, refl, some, [], ◌∷◌, ◌++◌, map, List, arith, length, ◌⊎◌, ◌≤◌, ◌+◌,
}
use realtime_game_server.Base.Int.{pos}
use realtime_game_server.Base.Dict.{lookup, values}
use realtime_game_server.Base.Action.{ok}
use realtime_game_server.Leaderboard
use realtime_game_server.Leaderboard.{Row, get_top_players, before}
use realtime_game_server.Leaderboard.Top.{IsAnswer, Before, AreRanked, row_of, get_top_players_lem}
use realtime_game_server.Player.{
  Db, Profile, EquipmentSlot, empty_equipment, read_experience, write_experience, add_experience,
}
use realtime_game_server.Player.Experience.{Call, IsValid, run, run-IsProfile}
use realtime_game_server.Player.Overlap.{experience_at, read-write-experience}

abbrev empty : Db
empty = record { players = []; leaderboard = []; inventories = [] }

empty-IsValid : IsValid empty
unfolding lookup
empty-IsValid id p e = absurd (ground arith)

abbrev calls : List Call
calls =
    Call.create 1 11 21
    ∷ Call.gain 1 (pos 2500)
    ∷ Call.create 2 12 22
    ∷ Call.win 1
    ∷ Call.equip 1 (some EquipmentSlot.helmet) 5
    ∷ []

run-IsProfile_example : IsValid (run calls empty)
run-IsProfile_example = run-IsProfile calls empty empty-IsValid

abbrev novice : Profile
novice = record {
  id = 1;
  user_id = 11;
  username = 21;
  experience = 900;
  level = 1;
  equipment = empty_equipment;
}

abbrev db : Db
db = record { players = (1, novice) ∷ []; leaderboard = []; inventories = [] }

known : lookup 1 db.players ≡ some novice
unfolding lookup
known = refl

read-write-experience_example :
    let first = (write_experience 1 (900 + 200) db).1 in
    let second = (write_experience 1 (900 + 50) first).1 in
    let in_turn = (add_experience 1 (pos 50) (add_experience 1 (pos 200) db).1).1 in
    (read_experience 1 200 db ≡ (ok (900 + 200), db))
    × (read_experience 1 50 db ≡ (ok (900 + 50), db))
    × (experience_at 1 second ≡ some (900 + 50))
    × (experience_at 1 in_turn ≡ some (900 + 200 + 50))
read-write-experience_example =
    read-write-experience 1 200 50 db novice known (omega arith) (omega arith)

abbrev low : Row
low = record { player_id = 1; username = 21; experience = 900; level = 1; wins = 4 }

abbrev high : Row
high = record { player_id = 2; username = 22; experience = 1500; level = 2; wins = 0 }

abbrev board : Leaderboard.Db
board = (1, low) ∷ (2, high) ∷ []

-- a row put before the first one that it may precede, and rows sorted so
insert_row : Row → List Row → List Row
insert_row r [] = r ∷ []
insert_row r (x ∷ rows) = elim (before r x) [ true ↦ r ∷ x ∷ rows | false ↦ x ∷ insert_row r rows ]

sort_rows : List Row → List Row
sort_rows [] = []
sort_rows (r ∷ rows) = insert_row r (sort_rows rows)

sorted : sort_rows (values board) ≡ high ∷ low ∷ []
unfolding sort_rows insert_row values
sorted = refl

Before-prop : (a b : Row) → IsProp (Before a b)
Before-prop a b = Bool-set (before a b) true

board-IsAnswer : IsAnswer (sort_rows (values board)) (values board)
unfolding values
board-IsAnswer = rw sorted (record {
  perm = Perm.swap low high [];
  sorted =
      Pairwise.cons ((forall_mem-cons (Before-prop high)).1 (refl, λ a m. absurd (not-mem-nil m)))
        (Pairwise-singleton Before low);
})

get_top_players_lem_example :
    let entries = get_top_players sort_rows (pos 1) board in
    (rest : List Row) × Perm (map row_of entries ++ rest) (values board)
    × Pairwise Before (map row_of entries ++ rest)
    × AreRanked 1 entries
    × ((length (map row_of entries) ≡ 1) ⊎ ((length (map row_of entries) ≤ 1) × (rest ≡ [])))
get_top_players_lem_example = get_top_players_lem sort_rows (pos 1) board board-IsAnswer
