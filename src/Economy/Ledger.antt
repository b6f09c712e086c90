-- ===== src/Economy/Ledger.antt =====
-- The ledger and the balances, under credits and debits.
use realtime_game_server.Base.{
  ◌≡◌, ◌+◌, ◌⊎◌, ◌&&◌, not, refl, ap, ◌∙◌, Bool, true, false, some, List, [], ◌∷◌, ◌++◌, inl, inr,
  arith, Key, ◌==◌, if◌then◌else◌, Bool-cases, Option-cases,
}
use realtime_game_server.Base.Int.{ℤ, pos, ◌+ℤ◌, ◌-ℤ◌, ◌≤ℤ◌, +ℤ_parts, int_laws, ltb_ℤ, leb_ℤ}
use realtime_game_server.Base.Dict.{lookup, lookup-insert, lookup-insert_self}
use realtime_game_server.Base.Action.{ok, err, validation, unexpected}
use realtime_game_server.Economy.{
  CoinTransaction, credit, debit, Db, post, credit_player, debit_player, fits, int_max,
}

-- a balance after a row
abbrev pub moved : CoinTransaction → ℤ → ℤ
moved t b = elim t.type [ credit ↦ b +ℤ t.amount | debit ↦ b -ℤ t.amount ]

abbrev EitherOf : Bool → Type 0 → Type 0 → Type 0
EitherOf true a b = a
EitherOf false a b = b

-- The rows of `p` lead from balance `b` to balance `c`, and each records the balance it led to.
abbrev pub Explains : Key → ℤ → List CoinTransaction → ℤ → Type 0
Explains p b [] c = b ≡ c
Explains p b (t ∷ ts) c =
    EitherOf (t.player_id == p) ((t.balance_after ≡ moved t b) × Explains p (moved t b) ts c)
      (Explains p b ts c)

pub Explains-append :
    (p : Key) (b c : ℤ) (ts : List CoinTransaction) (t : CoinTransaction)
    → Explains p b ts c
    → (t.player_id ≡ p → t.balance_after ≡ moved t c)
    → Explains p b (ts ++ t ∷ []) (if t.player_id == p then moved t c else c)
Explains-append p b c [] t h e = elim (Bool-cases (t.player_id == p)) [
  | inl own ↦ rw own (rw h (e (ground arith)), ap (moved t) h)
  | inr other ↦ rw other h
]
Explains-append p b c (u ∷ ts) t h e = elim (Bool-cases (u.player_id == p)) [
  | inl own ↦
      let h' : (u.balance_after ≡ moved u b) × Explains p (moved u b) ts c = rw own at h in
      rw own (h'.0, Explains-append p (moved u b) c ts t h'.1 e)
  | inr other ↦
      let h' : Explains p b ts c = rw other at h in rw other (Explains-append p b c ts t h' e)
]

-- No balance is negative, and the ledger explains each from the opening balance.
pub record IsValid (opening : Key → ℤ) (db : Db) : Type 0 where
  pub solvent : (p : Key) (c : ℤ) → lookup p db.coins ≡ some c → pos 0 ≤ℤ c
  pub explained :
      (p : Key) (c : ℤ) → lookup p db.coins ≡ some c → Explains p (opening p) db.transactions c

post-IsValid :
    (opening : Key → ℤ) (p : Key) (b : ℤ) (t : CoinTransaction) (db : Db)
    → lookup p db.coins ≡ some b
    → t.player_id ≡ p
    → t.balance_after ≡ moved t b
    → pos 0 ≤ℤ moved t b
    → IsValid opening db
    → IsValid opening (post p (moved t b) t db)
post-IsValid opening p b t db found own after up v = record {
  solvent = λ q c e. ground (arith, lookup-insert p q (moved t b) db.coins, v.solvent q c);
  explained = λ q c e. elim (Bool-cases (p == q)) [
    | inl same ↦
        let pq : p ≡ q = ground arith in
        let c-eq : moved t b ≡ c = ground (arith, lookup-insert p q (moved t b) db.coins) in
        let tq : (t.player_id == q) ≡ true = ground arith in
        let old : Explains q (opening q) db.transactions b = v.explained q b (rw (← pq) found) in
        let new = Explains-append q (opening q) b db.transactions t old (λ _. after) in
        rw (← c-eq) (rw tq at new)
    | inr other ↦
        let tq : (t.player_id == q) ≡ false = ground arith in
        let found' : lookup q db.coins ≡ some c =
          ground (arith, lookup-insert p q (moved t b) db.coins) in
        let new =
          Explains-append q (opening q) c db.transactions t (v.explained q c found')
            (λ h. absurd (ground arith)) in
        rw tq at new
  ];
}

abbrev pub credit_row : Key → ℤ → Key → ℤ → CoinTransaction
credit_row p amount reason b = record {
  player_id = p;
  amount = amount;
  balance_after = b +ℤ amount;
  type = credit;
  reason = reason;
}

abbrev pub debit_row : Key → ℤ → Key → ℤ → CoinTransaction
debit_row p amount reason b = record {
  player_id = p;
  amount = amount;
  balance_after = b -ℤ amount;
  type = debit;
  reason = reason;
}

module _ (p : Key) (amount : ℤ) (reason : Key) (db : Db) where
  -- A positive credit to a known player whose new balance fits its column adds the amount to the
  -- balance and posts one row; all else throws and changes nothing.
  pub credit_player_cases :
      ((credit_player p amount reason db).1 ≡ db)
      ⊎ ((b : ℤ) × (lookup p db.coins ≡ some b)
          × (pos 1 ≤ℤ amount)
          × ((credit_player p amount reason db).1
              ≡ post p (b +ℤ amount) (credit_row p amount reason b) db))
  unfolding credit_player
  credit_player_cases = elim (Option-cases (lookup p db.coins)) [
    | inl absent ↦ inl (ground arith)
    | inr (b, found) ↦ elim (Bool-cases (leb_ℤ amount (pos 0))) [
      | inl bad ↦ inl (ground arith)
      | inr good ↦ elim (Bool-cases (fits (b +ℤ amount) && fits amount)) [
        | inl room ↦ inr (b, found, ground arith, ground arith)
        | inr large ↦ inl (ground arith)
      ]
    ]
  ]

  pub debit_player_cases :
      ((debit_player p amount reason db).1 ≡ db)
      ⊎ ((b : ℤ) × (lookup p db.coins ≡ some b)
          × (pos 1 ≤ℤ amount)
          × (amount ≤ℤ b)
          × ((debit_player p amount reason db).1
              ≡ post p (b -ℤ amount) (debit_row p amount reason b) db))
  unfolding debit_player
  debit_player_cases = elim (Option-cases (lookup p db.coins)) [
    | inl absent ↦ inl (ground arith)
    | inr (b, found) ↦ elim (Bool-cases (leb_ℤ amount (pos 0))) [
      | inl bad ↦ inl (ground arith)
      | inr good ↦ elim (Bool-cases (ltb_ℤ b amount)) [
        | inl short ↦ inl (ground arith)
        | inr covered ↦ inr (b, found, ground arith, ground arith, ground arith)
      ]
    ]
  ]

  module _ (opening : Key → ℤ) (v : IsValid opening db) where
    pub credit_player-IsValid : IsValid opening (credit_player p amount reason db).1
    credit_player-IsValid = elim credit_player_cases [
      | inl same ↦ rw same v
      | inr (b, found, positive, written) ↦ rw written (
          post-IsValid opening p b (credit_row p amount reason b) db found refl refl
            (omega (int_laws, v.solvent p b found)) v)
    ]

    pub debit_player-IsValid : IsValid opening (debit_player p amount reason db).1
    debit_player-IsValid = elim debit_player_cases [
      | inl same ↦ rw same v
      | inr (b, found, positive, covered, written) ↦ rw written (
          post-IsValid opening p b (debit_row p amount reason b) db found refl refl
            (omega (int_laws, v.solvent p b found)) v)
    ]

  -- What a credit answers a known player: by the amount and the new balance.
  pub credit_player_result :
      (b : ℤ)
      → lookup p db.coins ≡ some b
      → credit_player p amount reason db ≡ (
          if leb_ℤ amount (pos 0)
          then (err (validation "Credit amount must be positive"), db)
          else if not (fits (b +ℤ amount) && fits amount)
          then (err (unexpected "P2020"), db)
          else (
            ok (record { coins = b +ℤ amount; transaction = credit_row p amount reason b }),
            post p (b +ℤ amount) (credit_row p amount reason b) db,
          ))
  unfolding credit_player
  credit_player_result b found = ground arith

  -- What a debit answers a known player, and what it writes, by the amount and the balance.
  debit_player_result :
      (b : ℤ)
      → lookup p db.coins ≡ some b
      → debit_player p amount reason db ≡ (
          if leb_ℤ amount (pos 0)
          then (err (validation "Debit amount must be positive"), db)
          else if ltb_ℤ b amount
          then (err (validation "Insufficient coins"), db)
          else (
            ok (record { coins = b -ℤ amount; transaction = debit_row p amount reason b }),
            post p (b -ℤ amount) (debit_row p amount reason b) db,
          ))
  unfolding debit_player
  debit_player_result b found = ground arith

-- After a credit of a positive amount to a solvent player whose new balance fits a 32-bit column, a
-- debit of the same amount succeeds and brings the balance back; the ledger has the two rows.
pub debit-credit :
    (p : Key) (amount b : ℤ) (reason : Key) (db : Db)
    → lookup p db.coins ≡ some b
    → pos 0 ≤ℤ b
    → pos 1 ≤ℤ amount
    → b +ℤ amount ≤ℤ pos int_max
    → let db' = (debit_player p amount reason (credit_player p amount reason db).1).1 in
      (lookup p db'.coins ≡ some b)
      × (db'.transactions
          ≡ (db.transactions ++ credit_row p amount reason b ∷ [])
            ++ debit_row p amount reason (b +ℤ amount) ∷ [])
debit-credit p amount b reason db found solvent positive room =
    let positive' : leb_ℤ amount (pos 0) ≡ false = ground arith in
    let fit : (fits (b +ℤ amount) && fits amount) ≡ true = ground (arith, +ℤ_parts b amount) in
    let covered : ltb_ℤ (b +ℤ amount) amount ≡ false = ground (arith, +ℤ_parts b amount) in
    let back : b +ℤ amount -ℤ amount ≡ b = omega int_laws in
    let db₁ = post p (b +ℤ amount) (credit_row p amount reason b) db in
    let found₁ : lookup p db₁.coins ≡ some (b +ℤ amount) =
      lookup-insert_self p (b +ℤ amount) db.coins in
    rw (credit_player_result p amount reason db b found, positive', fit)
      (rw (debit_player_result p amount reason db₁ (b +ℤ amount) found₁, positive', covered)
        (lookup-insert_self p _ db₁.coins ∙ ap some back, refl))

-- A credit to a player whose new balance does not fit its column throws and changes nothing.
credit_too_large :
    (p : Key) (amount b : ℤ) (reason : Key) (db : Db)
    → lookup p db.coins ≡ some b
    → pos 1 ≤ℤ amount
    → pos (int_max + 1) ≤ℤ b +ℤ amount
    → credit_player p amount reason db ≡ (err (unexpected "P2020"), db)
credit_too_large p amount b reason db found positive large =
    let positive' : leb_ℤ amount (pos 0) ≡ false = ground arith in
    let unfit : (fits (b +ℤ amount) && fits amount) ≡ false = ground arith in
    rw (credit_player_result p amount reason db b found, positive', unfit) refl
