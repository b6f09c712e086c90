-- ===== src/Economy.antt =====
-- src/application/services/economy-service.ts over the tables `players` and `coin_transactions`. The
-- row lock (`FOR UPDATE`) makes a method one step; ids and times of the ledger rows, which no code
-- reads, are left out: the rows stand in the order of `created_at`.
pub mod Accounts
pub mod Ledger
pub mod Reach
use mathlib.Core.List.{reverse}
use realtime_game_server.Base.{
  ℕ, Bool, Option, none, some, List, [], ◌∷◌, ◌++◌, Key, ◌==◌, if◌then◌else◌, filter, take, is_some,
  not, ◌&&◌,
}
use realtime_game_server.Base.Int.{ℤ, pos, ◌+ℤ◌, ◌-ℤ◌, ltb_ℤ, leb_ℤ}
use realtime_game_server.Base.Dict.{Dict, lookup, insert}
use realtime_game_server.Base.Action.{
  Error, not_found, validation, unexpected, Action, pure, gets, or_throw, throw_if, modify,
  transaction, ◌>>=◌, ◌>>◌,
}

pub data CoinTransactionType : Type 0 where
  credit debit : CoinTransactionType

pub record CoinTransaction : Type 0 where
  pub player_id : Key
  pub amount : ℤ
  pub balance_after : ℤ
  pub type : CoinTransactionType
  pub reason : Key

-- the column `coins` of the players, and the ledger
pub record Db : Type 0 where
  pub coins : Dict ℤ
  pub transactions : List CoinTransaction

pub record Receipt : Type 0 where
  pub coins : ℤ
  pub transaction : CoinTransaction

-- The columns are 32-bit integers: a larger value is an error of the database client. What a debit
-- writes is smaller than the balance that it found, so it fits.
abbrev pub int_max : ℕ
int_max = 2_147_483_647

abbrev pub fits : ℤ → Bool
fits n = leb_ℤ n (pos int_max)

-- the update of the player and the new ledger row
abbrev pub post : Key → ℤ → CoinTransaction → Db → Db
post player_id coins t db = record {
  coins = insert player_id coins db.coins;
  transactions = db.transactions ++ t ∷ [];
}

unfoldable pub get_balance : Key → Action Db ℤ
get_balance player_id = do
  found ← gets (λ db. lookup player_id db.coins)
  or_throw found (not_found "Player")

unfoldable pub credit_player : Key → ℤ → Key → Action Db Receipt
credit_player player_id amount reason = do
  throw_if (leb_ℤ amount (pos 0)) (validation "Credit amount must be positive")
  transaction (do
    locked ← gets (λ db. lookup player_id db.coins)
    balance ← or_throw locked (not_found "Player")
    let coins = balance +ℤ amount
    throw_if (not (fits coins && fits amount)) (unexpected "P2020")
    let t : CoinTransaction = record {
      player_id = player_id;
      amount = amount;
      balance_after = coins;
      type = credit;
      reason = reason;
    }
    modify (post player_id coins t)
    pure (record { coins = coins; transaction = t }))

unfoldable pub debit_player : Key → ℤ → Key → Action Db Receipt
debit_player player_id amount reason = do
  throw_if (leb_ℤ amount (pos 0)) (validation "Debit amount must be positive")
  transaction (do
    locked ← gets (λ db. lookup player_id db.coins)
    balance ← or_throw locked (not_found "Player")
    throw_if (ltb_ℤ balance amount) (validation "Insufficient coins")
    let coins = balance -ℤ amount
    let t : CoinTransaction = record {
      player_id = player_id;
      amount = amount;
      balance_after = coins;
      type = debit;
      reason = reason;
    }
    modify (post player_id coins t)
    pure (record { coins = coins; transaction = t }))

-- `createTransaction` of src/infrastructure/database/prisma-economy-repository.ts, which nothing
-- calls: a row alone, of a player that must be there
unfoldable pub create_transaction : CoinTransaction → Action Db CoinTransaction
create_transaction t = do
  found ← gets (λ db. lookup t.player_id db.coins)
  throw_if (not (is_some found)) (unexpected "P2003")
  throw_if (not (fits t.amount && fits t.balance_after)) (unexpected "P2020")
  modify (λ db. record db { transactions = db.transactions ++ t ∷ [] })
  pure t

-- the newest first
unfoldable pub list_transactions : Key → ℕ → Action Db (List CoinTransaction)
list_transactions player_id limit = do
  found ← gets (λ db. lookup player_id db.coins)
  throw_if (not (is_some found)) (not_found "Player")
  gets (λ db. take limit (reverse (filter (λ t. t.player_id == player_id) db.transactions)))
