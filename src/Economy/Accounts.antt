-- ===== src/Economy/Accounts.antt =====
-- Accounts that are opened while others are used.
use realtime_game_server.Base.{◌≡◌, refl, false, none, some, inl, inr, arith, Key, ◌==◌, Bool-cases}
use realtime_game_server.Base.Int.{ℤ, pos, ◌+ℤ◌, ◌-ℤ◌}
use realtime_game_server.Base.Dict.{lookup, insert, lookup-insert}
use realtime_game_server.Economy.{Db, CoinTransaction, post, credit_player, debit_player}
use realtime_game_server.Economy.Ledger
use realtime_game_server.Economy.Ledger.{
  Explains, Explains-append, moved, credit_row, debit_row, credit_player_cases, debit_player_cases,
  credit_player-IsValid, debit_player-IsValid,
}

abbrev pub opening : Key → ℤ
opening p = pos 100

-- No balance is negative, the ledger explains each from 100 coins, and a player that has no balance
-- has no rows.
pub record AreAccounts (db : Db) : Type 0 where
  pub valid : Ledger.IsValid opening db
  pub unopened :
      (p : Key) → lookup p db.coins ≡ none → Explains p (opening p) db.transactions (opening p)

post-unopened :
    (p : Key) (c b : ℤ) (t : CoinTransaction) (db : Db)
    → lookup p db.coins ≡ some b
    → t.player_id ≡ p
    → AreAccounts db
    → (q : Key) → lookup q (post p c t db).coins ≡ none
    → Explains q (opening q) (post p c t db).transactions (opening q)
post-unopened p c b t db found own v q absent =
    let apart : (t.player_id == q) ≡ false = ground (arith, lookup-insert p q c db.coins) in
    let absent' : lookup q db.coins ≡ none = ground (arith, lookup-insert p q c db.coins) in
    let new =
      Explains-append q (opening q) (opening q) db.transactions t (v.unopened q absent')
        (λ h. absurd (ground arith)) in
    rw apart at new

module _ (p : Key) (amount : ℤ) (reason : Key) (db : Db) (v : AreAccounts db) where
  pub credit_player-AreAccounts : AreAccounts (credit_player p amount reason db).1
  credit_player-AreAccounts = record {
    valid = credit_player-IsValid p amount reason db opening v.valid;
    unopened = λ q. elim (credit_player_cases p amount reason db) [
      | inl same ↦ rw same (v.unopened q)
      | inr (b, found, _, written) ↦
          rw written
            (post-unopened p (b +ℤ amount) b (credit_row p amount reason b) db found refl v q)
    ];
  }

  pub debit_player-AreAccounts : AreAccounts (debit_player p amount reason db).1
  debit_player-AreAccounts = record {
    valid = debit_player-IsValid p amount reason db opening v.valid;
    unopened = λ q. elim (debit_player_cases p amount reason db) [
      | inl same ↦ rw same (v.unopened q)
      | inr (b, found, _, _, written) ↦
          rw written
            (post-unopened p (b -ℤ amount) b (debit_row p amount reason b) db found refl v q)
    ];
  }

-- a new player's account
pub opened-AreAccounts :
    (p : Key) (db : Db)
    → lookup p db.coins ≡ none
    → AreAccounts db
    → AreAccounts (record db { coins = insert p (opening p) db.coins })
opened-AreAccounts p db new v = record {
  valid = record {
    solvent = λ q c e. ground (arith, lookup-insert p q (opening p) db.coins, v.valid.solvent q c);
    explained = λ q c e. elim (Bool-cases (p == q)) [
      | inl same ↦
          let pq : p ≡ q = ground arith in
          let cq : opening p ≡ c = ground (arith, lookup-insert p q (opening p) db.coins) in
          rw (← cq, ← pq) (v.unopened p new)
      | inr other ↦ v.valid.explained q c (ground (arith, lookup-insert p q (opening p) db.coins))
    ];
  };
  unopened = λ q e. v.unopened q (ground (arith, lookup-insert p q (opening p) db.coins));
}
