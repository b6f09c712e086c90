-- ===== src/Leaderboard.antt =====
-- src/application/services/leaderboard-service.ts over
-- src/infrastructure/database/prisma-leaderboard-repository.ts, with the entity of
-- src/domain/entities/leaderboard.ts and the input of
-- src/domain/repositories/leaderboard-repository.ts. The order of the database's answer is a
-- parameter; a limit is a whole number.
pub mod Top
use realtime_game_server.Base.{
  ℕ, zero, suc, ◌+◌, max, min, Bool, Option, none, some, List, [], ◌∷◌, Key, ◌&&◌, ◌||◌, ltb, leb,
  ◌==◌, take, get_or, ⊤,
}
use realtime_game_server.Base.Int.{ℤ, pos_part}
use realtime_game_server.Base.Dict.{Dict, lookup, insert, values}
use realtime_game_server.Base.Action.{unexpected, Action, pure, gets, or_throw, modify, ◌>>=◌, ◌>>◌}

-- a row of the table `leaderboard`
pub record Row : Type 0 where
  pub player_id : Key
  pub username : Key
  pub experience : ℕ
  pub level : ℕ
  pub wins : ℕ

abbrev pub Db : Type 0
Db = Dict Row

pub record LeaderboardEntry : Type 0 where
  pub player_id : Key
  pub username : Key
  pub experience : ℕ
  pub level : ℕ
  pub wins : ℕ
  pub rank : ℕ

pub record UpsertLeaderboardInput : Type 0 where
  pub player_id : Key
  pub username : Key
  pub experience : ℕ
  pub level : ℕ
  pub wins : Option ℕ

-- the row that an `upsert` leaves, from the row that was there
abbrev pub upserted : UpsertLeaderboardInput → Option Row → Row
upserted input none = record {
  player_id = input.player_id;
  username = input.username;
  experience = input.experience;
  level = input.level;
  wins = get_or input.wins 0;
}
upserted input (some row) = record row {
  username = input.username;
  experience = input.experience;
  level = input.level;
  wins = get_or input.wins row.wins;
}

unfoldable pub upsert : UpsertLeaderboardInput → Db → Db
upsert input db = insert input.player_id (upserted input (lookup input.player_id db)) db

unfoldable pub increment_wins : Key → Action Db ⊤
increment_wins player_id = do
  found ← gets (lookup player_id)
  row ← or_throw found (unexpected "P2025")
  modify (insert player_id (record row { wins = row.wins + 1 }))

-- `orderBy: [{ experience: 'desc' }, { wins: 'desc' }]` lets `a` stand before `b`
abbrev pub before : Row → Row → Bool
before a b = ltb b.experience a.experience || (a.experience == b.experience && leb b.wins a.wins)

abbrev pub entry_at : ℕ → Row → LeaderboardEntry
entry_at index row = record {
  player_id = row.player_id;
  username = row.username;
  experience = row.experience;
  level = row.level;
  wins = row.wins;
  rank = index + 1;
}

-- `rows.map((row, index) => ...)`, from an index on
unfoldable pub entries_from : ℕ → List Row → List LeaderboardEntry
entries_from index [] = []
entries_from index (row ∷ rows) = entry_at index row ∷ entries_from (index + 1) rows

module _ (order_by : List Row → List Row) where
  unfoldable pub get_top_by_experience : ℕ → Db → List LeaderboardEntry
  get_top_by_experience limit db = entries_from 0 (take limit (order_by (values db)))

  unfoldable pub get_top_players : ℤ → Db → List LeaderboardEntry
  get_top_players limit db = get_top_by_experience (min (max (pos_part limit) 1) 100) db
