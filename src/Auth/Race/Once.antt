-- ===== src/Auth/Race/Once.antt =====
-- Any number of refreshes, cut at their `await`s and interleaved with each other and with whole
-- requests.
use realtime_game_server.Base.{
  ℕ, ◌≡◌, refl, sym, Bool, true, false, some, Key, ◌==◌, if◌then◌else◌, Option-cases, inl, inr,
  Bool-cases, arith,
}
use realtime_game_server.Base.Dict.{lookup, lookup-insert}
use realtime_game_server.Base.Action.{ok}
use realtime_game_server.Auth.Store.{
  Db, find_player, find_by_token_hash, revoke_if_active, revoke_all_for_user,
}
use realtime_game_server.Auth.Tokens.{Crypto, hash_token}
use realtime_game_server.Auth.Service.{Call, AuthTokens}
use realtime_game_server.Auth.Revocation.{
  Revoked, is_revoked, Request, perform, perform-Revoked, issue_tokens-Keeps, lookup-revoke_each,
}
use realtime_game_server.Auth.Race.{Stage, begin, mark, family, owner, issue, finished, advance}

-- the token has been marked as used by this refresh
abbrev has_won : Stage → Bool
has_won (owner _) = true
has_won (issue _ _) = true
has_won (finished (ok _)) = true
has_won _ = false

pub record System : Type 0 where
  pub db : Db
  pub stages : ℕ → Stage

abbrev pub update : ℕ → Stage → (ℕ → Stage) → ℕ → Stage
update i stage stages k = if i == k then stage else stages k

-- The call and the token of each refresh.
pub record Calls : Type 0 where
  pub call : ℕ → Call
  pub token : ℕ → Key

module _ (c : Crypto) (p : Calls) where
  -- the refresh `i` goes on to its next `await`
  abbrev pub resumed : ℕ → System → System
  resumed i s =
      let (stage, db) = advance c (p.call i) (p.token i) (s.stages i) s.db in
      record { db = db; stages = update i stage s.stages }

  pub data Step (s : System) : System → Type 0 where
    resume : (i : ℕ) → Step s (resumed i s)
    request : (r : Request) → Step s (record { db = perform c r s.db; stages = s.stages })

  pub data Reach (db : Db) : System → Type 0 where
    start : Reach db (record { db = db; stages = λ _. begin })
    later : {s t : System} → Reach db s → Step s t → Reach db t

  abbrev hash_of : ℕ → Key
  hash_of i = hash_token c (p.token i)

  -- Whoever has won has left its token revoked, and nobody else has won with that token.
  record IsFair (s : System) : Type 0 where
    pub spent : (i : ℕ) → has_won (s.stages i) ≡ true → Revoked (hash_of i) s.db
    pub alone :
        (i j : ℕ)
        → has_won (s.stages i) ≡ true
        → has_won (s.stages j) ≡ true
        → hash_of i ≡ hash_of j
        → i ≡ j

  -- A stage keeps what is revoked.
  advance-Revoked :
      (h : Key) (i : ℕ) (stage : Stage) (db : Db)
      → Revoked h db
      → Revoked h (advance c (p.call i) (p.token i) stage db).1
  unfolding advance revoke_if_active revoke_all_for_user find_by_token_hash find_player
  advance-Revoked h i begin db r = ground arith
  advance-Revoked h i (mark payload stored) db r =
      elim (Option-cases (lookup (hash_of i) db.tokens)) [
        | inl absent ↦ ground arith
        | inr (token, found) ↦ ground (
          arith,
          lookup-insert (hash_of i) h (record token { revoked_at = some (p.call i).now }) db.tokens,
        )
      ]
  advance-Revoked h i (family u) db r =
      ground (arith, lookup-revoke_each (p.call i).now u h db.tokens)
  advance-Revoked h i (owner payload) db r = ground arith
  advance-Revoked h i (issue payload player) db r =
      (issue_tokens-Keeps c (p.call i) h payload.user_id player.id player.username).at db r
  advance-Revoked h i (finished x) db r = r

  -- A stage that wins had won before, or marked a token that was not revoked and is now.
  advance_wins :
      (i : ℕ) (stage : Stage) (db : Db)
      → has_won (advance c (p.call i) (p.token i) stage db).0 ≡ true
      → has_won stage ≡ false
      → (is_revoked (lookup (hash_of i) db.tokens) ≡ false)
        × Revoked (hash_of i) (advance c (p.call i) (p.token i) stage db).1
  unfolding advance revoke_if_active revoke_all_for_user find_by_token_hash find_player
  advance_wins i begin db w f = ground arith
  advance_wins i (mark payload stored) db w f = elim (Option-cases (lookup (hash_of i) db.tokens)) [
    | inl absent ↦ absurd (ground arith)
    | inr (token, found) ↦ ground (
      arith,
      lookup-insert (hash_of i) (hash_of i) (record token { revoked_at = some (p.call i).now })
          db.tokens,
    )
  ]
  advance_wins i (family u) db w f = ground arith
  advance_wins i (owner payload) db w f = ground arith
  advance_wins i (issue payload player) db w f = ground arith
  advance_wins i (finished x) db w f = ground arith

  -- whoever wins now is whoever had won with the same token
  resumed_alone :
      (i k : ℕ) (s : System)
      → IsFair s
      → has_won (advance c (p.call i) (p.token i) (s.stages i) s.db).0 ≡ true
      → has_won (s.stages k) ≡ true
      → hash_of i ≡ hash_of k
      → i ≡ k
  resumed_alone i k s v w x h = elim (Bool-cases (has_won (s.stages i))) [
    | inl won ↦ v.alone i k won x h
    | inr lost ↦
        let spent : is_revoked (lookup (hash_of i) s.db.tokens) ≡ true = rw h (v.spent k x) in
        absurd (ground (arith, advance_wins i (s.stages i) s.db w lost, spent))
  ]

  resumed-IsFair : (i : ℕ) (s : System) → IsFair s → IsFair (resumed i s)
  resumed-IsFair i s v =
      let next = advance c (p.call i) (p.token i) (s.stages i) s.db in
      let wins = advance_wins i (s.stages i) s.db in
      record {
        spent = λ j w. elim (Bool-cases (has_won (s.stages j))) [
          | inl won ↦ advance-Revoked (hash_of j) i (s.stages i) s.db (v.spent j won)
          | inr lost ↦ elim (Bool-cases (i == j)) [
            | inl same ↦
                let e : i ≡ j = ground arith in rw (← e) (wins (ground arith) (ground arith)).1
            | inr other ↦ absurd (ground arith)
          ]
        ];
        alone = λ j k w x h. elim (Bool-cases (i == j)) [
          | inl first ↦ elim (Bool-cases (i == k)) [
            | inl second ↦ ground arith
            | inr apart ↦
                let e : i ≡ j = ground arith in
                rw (← e) (resumed_alone i k s v (ground arith) (ground arith) (rw e h))
          ]
          | inr apart ↦ elim (Bool-cases (i == k)) [
            | inl second ↦
                let e : i ≡ k = ground arith in
                rw (← e) (sym (resumed_alone i j s v (ground arith) (ground arith) (rw e (sym h))))
            | inr apart' ↦ v.alone j k (ground arith) (ground arith) h
          ]
        ];
      }

  IsFair-start : (db : Db) → IsFair (record { db = db; stages = λ _. begin })
  IsFair-start db = record { spent = λ i w. ground arith; alone = λ i j w x h. ground arith }

  Step-IsFair : {s t : System} → Step s t → IsFair s → IsFair t
  Step-IsFair {s} (resume i) v = resumed-IsFair i s v
  Step-IsFair {s} (request r) v = record {
    spent = λ i w. perform-Revoked c (hash_of i) r s.db (v.spent i w);
    alone = v.alone;
  }

  Reach-IsFair : {db : Db} {s : System} → Reach db s → IsFair s
  Reach-IsFair {db} start = IsFair-start db
  Reach-IsFair (later r st) = Step-IsFair st (Reach-IsFair r)

  -- Of any number of refreshes with tokens of the same digest, cut at their awaits and interleaved
  -- with each other and with whole requests in any order, at most one ends with new tokens.
  pub refresh_race :
      {db : Db} {s : System} (i j : ℕ) (x y : AuthTokens)
      → Reach db s
      → hash_token c (p.token i) ≡ hash_token c (p.token j)
      → s.stages i ≡ finished (ok x)
      → s.stages j ≡ finished (ok y)
      → i ≡ j
  refresh_race i j x y r same done done' =
      (Reach-IsFair r).alone i j (rw done refl) (rw done' refl) same
