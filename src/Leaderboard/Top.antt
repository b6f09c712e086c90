-- ===== src/Leaderboard/Top.antt =====
-- The list of the best players against the rows of the table.
use mathlib.Core.List.{Perm, Pairwise}
use realtime_game_server.Base.{
  ℕ, zero, suc, ◌≤◌, ◌⊎◌, inl, inr, ◌+◌, max, min, ◌≡◌, refl, ap, true, List, [], ◌∷◌, ◌++◌, map,
  length, take, arith,
}
use realtime_game_server.Base.Int.{ℤ, pos_part}
use realtime_game_server.Base.Dict.{values}
use realtime_game_server.Leaderboard.{
  Row, Db, LeaderboardEntry, before, entries_from, get_top_by_experience, get_top_players,
}

-- the row that an entry shows
abbrev pub row_of : LeaderboardEntry → Row
row_of e = record {
  player_id = e.player_id;
  username = e.username;
  experience = e.experience;
  level = e.level;
  wins = e.wins;
}

abbrev pub Before : Row → Row → Type 0
Before a b = before a b ≡ true

-- The answer of the database is the table's rows, in the order that the query asks for.
pub record IsAnswer (answer rows : List Row) : Type 0 where
  pub perm : Perm answer rows
  pub sorted : Pairwise Before answer

abbrev drop : ℕ → List Row → List Row
drop zero rows = rows
drop (suc n) [] = []
drop (suc n) (_ ∷ rows) = drop n rows

take-append-drop : (n : ℕ) (rows : List Row) → take n rows ++ drop n rows ≡ rows
take-append-drop zero rows = refl
take-append-drop (suc n) [] = refl
take-append-drop (suc n) (r ∷ rows) = ap (λ l. r ∷ l) (take-append-drop n rows)

-- What is taken reaches the bound, or is everything.
length-take :
    (n : ℕ) (rows : List Row)
    → (length (take n rows) ≡ n) ⊎ ((length (take n rows) ≤ n) × (drop n rows ≡ []))
length-take zero rows = inl refl
length-take (suc n) [] = inr (omega arith, refl)
length-take (suc n) (r ∷ rows) = elim (length-take n rows) [
  | inl full ↦ inl (ap suc full)
  | inr (short, done) ↦ inr (omega (arith, short), done)
]

entries_from-rows : (n : ℕ) (rows : List Row) → map row_of (entries_from n rows) ≡ rows
unfolding entries_from
entries_from-rows n [] = refl
entries_from-rows n (r ∷ rows) = ap (λ l. r ∷ l) (entries_from-rows (n + 1) rows)

-- `first`, `first + 1`, ..., one for each of `entries`
abbrev pub AreRanked : ℕ → List LeaderboardEntry → Type 0
AreRanked first [] = Unit
AreRanked first (e ∷ entries) = (e.rank ≡ first) × AreRanked (first + 1) entries

entries_from-AreRanked : (n : ℕ) (rows : List Row) → AreRanked (n + 1) (entries_from n rows)
unfolding entries_from
entries_from-AreRanked n [] = tt
entries_from-AreRanked n (r ∷ rows) = (refl, entries_from-AreRanked (n + 1) rows)

-- If the database answers the table's rows ordered as the query asks, the best players are a
-- beginning of the rows in that order: with the rows that are left out they are the table's rows,
-- each before all that follow; they are ranked from 1 on, and there are as many as the limit, taken
-- between 1 and 100, or fewer if nothing is left out.
pub get_top_players_lem :
    (order_by : List Row → List Row) (limit : ℤ) (db : Db)
    → IsAnswer (order_by (values db)) (values db)
    → let entries = get_top_players order_by limit db in
      let n = min (max (pos_part limit) 1) 100 in
      (rest : List Row) × Perm (map row_of entries ++ rest) (values db)
      × Pairwise Before (map row_of entries ++ rest)
      × AreRanked 1 entries
      × ((length (map row_of entries) ≡ n) ⊎ ((length (map row_of entries) ≤ n) × (rest ≡ [])))
unfolding get_top_players get_top_by_experience
get_top_players_lem order_by limit db v =
    let rows = order_by (values db) in
    let n = min (max (pos_part limit) 1) 100 in
    let shown = entries_from-rows 0 (take n rows) in
    (
      drop n rows,
      rw (shown, take-append-drop n rows) v.perm,
      rw (shown, take-append-drop n rows) v.sorted,
      entries_from-AreRanked 0 (take n rows),
      rw shown (length-take n rows),
    )
