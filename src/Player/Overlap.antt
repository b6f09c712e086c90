-- ===== src/Player/Overlap.antt =====
-- Two additions of experience, one after the other and overlapping at the `await` between the read
-- and the transaction.
use realtime_game_server.Base.{ℕ, ◌+◌, ◌<◌, ◌≡◌, refl, Option, none, some, Key, arith}
use realtime_game_server.Base.Int.{pos}
use realtime_game_server.Base.Dict.{lookup, lookup-insert_self}
use realtime_game_server.Base.Action.{ok}
use realtime_game_server.Player.{Db, Profile, read_experience, write_experience, add_experience}
use realtime_game_server.Player.Experience.{leveled, write_experience_result}

abbrev experience_of : Option Profile → Option ℕ
experience_of none = none
experience_of (some p) = some p.experience

abbrev pub experience_at : Key → Db → Option ℕ
experience_at id db = experience_of (lookup id db.players)

write_experience-lookup :
    (id : Key) (experience : ℕ) (db : Db) (p : Profile)
    → lookup id db.players ≡ some p
    → lookup id (write_experience id experience db).1.players ≡ some (leveled p experience)
write_experience-lookup id experience db p found =
    rw (write_experience_result id experience db p found)
      (lookup-insert_self id (leveled p experience) db.players)

-- Where a player is known and two positive amounts are added, two additions that both read before
-- either writes leave the experience plus the second amount only; one after the other they leave it
-- plus both.
pub read-write-experience :
    (id : Key) (a b : ℕ) (db : Db) (p : Profile)
    → lookup id db.players ≡ some p
    → 0 < a
    → 0 < b
    → let first = (write_experience id (p.experience + a) db).1 in
      let second = (write_experience id (p.experience + b) first).1 in
      let in_turn = (add_experience id (pos b) (add_experience id (pos a) db).1).1 in
      (read_experience id a db ≡ (ok (p.experience + a), db))
      × (read_experience id b db ≡ (ok (p.experience + b), db))
      × (experience_at id second ≡ some (p.experience + b))
      × (experience_at id in_turn ≡ some (p.experience + a + b))
unfolding read_experience add_experience
read-write-experience id a b db p found ha hb =
    let first = (write_experience id (p.experience + a) db).1 in
    let after_first = write_experience-lookup id (p.experience + a) db p found in
    let leveled_once = leveled p (p.experience + a) in
    (
      ground arith,
      ground arith,
      rw (write_experience-lookup id (p.experience + b) first leveled_once after_first) refl,
      ground (
        arith,
        write_experience-lookup id (p.experience + a + b) first leveled_once after_first,
        after_first,
      ),
    )
