-- ===== src/Economy/Reach.antt =====
-- Any sequence of credits and debits.
use realtime_game_server.Base.{List, [], ◌∷◌, Key}
use realtime_game_server.Base.Int.{ℤ}
use realtime_game_server.Economy.{Db, credit_player, debit_player}
use realtime_game_server.Economy.Ledger.{IsValid, credit_player-IsValid, debit_player-IsValid}

-- a call of the service
pub data Call : Type 0 where
  credit debit : (player_id : Key) → (amount : ℤ) → (reason : Key) → Call

pub settle : List Call → Db → Db
settle [] db = db
settle (credit p amount reason ∷ calls) db = settle calls (credit_player p amount reason db).1
settle (debit p amount reason ∷ calls) db = settle calls (debit_player p amount reason db).1

-- From a database in which no balance is negative and the ledger explains every balance, any
-- sequence of credits and debits leads to such a database.
settle-IsValid :
    (calls : List Call) (opening : Key → ℤ) (db : Db)
    → IsValid opening db
    → IsValid opening (settle calls db)
unfolding settle
settle-IsValid [] opening db v = v
settle-IsValid (credit p amount reason ∷ calls) opening db v =
    settle-IsValid calls opening (credit_player p amount reason db).1
      (credit_player-IsValid p amount reason db opening v)
settle-IsValid (debit p amount reason ∷ calls) opening db v =
    settle-IsValid calls opening (debit_player p amount reason db).1
      (debit_player-IsValid p amount reason db opening v)
