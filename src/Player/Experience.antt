-- ===== src/Player/Experience.antt =====
-- Experience, levels and the rows of the leaderboard.
use realtime_game_server.Base.{
  ℕ, ◌+◌, ◌*◌, ◌≤◌, ◌<◌, ◌≡◌, refl, false, Option, none, some, Key, ◌==◌, arith, Option-cases,
  Bool-cases, inl, inr, List, [], ◌∷◌,
}
use realtime_game_server.Base.Int.{ℤ}
use realtime_game_server.Base.Dict.{lookup, insert, lookup-insert, lookup-insert_self}
use realtime_game_server.Base.Action.{ok, err, unexpected}
use realtime_game_server.Base.Action.Keeps.{Keeps, keeps_rules}
use realtime_game_server.Inventory
use realtime_game_server.Leaderboard.{Row, UpsertLeaderboardInput, upserted, increment_wins}
use realtime_game_server.Leaderboard
use realtime_game_server.Player.{
  Db, Profile, Equipment, EquipmentSlot, empty_equipment, xp_per_level, level_from_experience,
  create_profile, update_equipment, equip_item, unequip_item, get_profile, write_experience,
  read_experience, add_experience,
}

-- The level of `experience` is the one whose range of experience holds it.
pub level_from_experience_lem :
    (experience : ℕ)
    → let level = level_from_experience experience in
      (1 ≤ level)
      × (xp_per_level * level ≤ experience + xp_per_level)
      × (experience < xp_per_level * level)
unfolding level_from_experience
level_from_experience_lem experience = (omega arith, omega arith, omega arith)

abbrev wins_of : Option Row → ℕ
wins_of none = 0
wins_of (some row) = row.wins

-- the row that the leaderboard should have for a player
abbrev pub row_for : Profile → ℕ → Row
row_for p wins = record {
  player_id = p.id;
  username = p.username;
  experience = p.experience;
  level = p.level;
  wins = wins;
}

-- A profile `p` under `id`, and the row under `id` in the leaderboard.
abbrev pub IsProfile : Key → Profile → Option Row → Type 0
IsProfile id p row =
    (p.id ≡ id)
    × (p.level ≡ level_from_experience p.experience)
    × (row ≡ some (row_for p (wins_of row)))

abbrev pub IsValid : Db → Type 0
IsValid db =
    (id : Key) (p : Profile)
    → lookup id db.players ≡ some p
    → IsProfile id p (lookup id db.leaderboard)

-- A profile is written under `id` with its row, and no other row changes.
written-IsValid :
    (id : Key) (p : Profile) (rows : Leaderboard.Db) (db : Db)
    → IsValid db
    → IsProfile id p (lookup id rows)
    → ((q : Key) → (id == q) ≡ false → lookup q rows ≡ lookup q db.leaderboard)
    → IsValid (record db { players = insert id p db.players; leaderboard = rows })
written-IsValid id p rows db v own others q x e =
    let players = lookup-insert id q p db.players in
    elim (Bool-cases (id == q)) [
      | inl same ↦
          let h : p ≡ x = ground (arith, players) in
          let k : id ≡ q = ground arith in rw (← h, ← k) own
      | inr other ↦ rw (others q other) (v q x (ground (arith, players)))
    ]

other_row :
    (id : Key) (row : Row) (db : Db) (q : Key)
    → (id == q) ≡ false
    → lookup q (insert id row db.leaderboard) ≡ lookup q db.leaderboard
other_row id row db q other = ground (arith, lookup-insert id q row db.leaderboard)

pub create_profile-IsValid :
    (id user_id username : Key) (db : Db)
    → IsValid db
    → IsValid (create_profile id user_id username db)
unfolding create_profile level_from_experience
create_profile-IsValid id user_id username db v =
    let profile : Profile = record {
      id = id;
      user_id = user_id;
      username = username;
      experience = 0;
      level = 1;
      equipment = empty_equipment;
    } in
    let rows = insert id (row_for profile 0) db.leaderboard in
    written-IsValid id profile rows db v
      (rw (lookup-insert_self id (row_for profile 0) db.leaderboard) (refl, refl, refl))
      (other_row id (row_for profile 0) db)

update_equipment-IsValid :
    (id : Key) (equipment : Equipment) (db : Db)
    → IsValid db
    → IsValid (update_equipment id equipment db).1
unfolding update_equipment
update_equipment-IsValid id equipment db v = elim (Option-cases (lookup id db.players)) [
  | inl absent ↦ rw (absent, update_equipment) v
  | inr (old, found) ↦
      rw (found, update_equipment)
        (written-IsValid id (record old { equipment = equipment }) db.leaderboard db v
          (v id old found) (λ q other. refl))
]

update_equipment-Keeps :
    (id : Key) (equipment : Equipment) → Keeps IsValid (update_equipment id equipment)
update_equipment-Keeps id equipment = record { at = update_equipment-IsValid id equipment }

pub equip_item-Keeps :
    (id : Key) (slot : Option EquipmentSlot) (item : Key) → Keeps IsValid (equip_item id slot item)
unfolding equip_item get_profile
equip_item-Keeps id slot item = search (keeps_rules, update_equipment-Keeps) depth 20

pub unequip_item-Keeps :
    (id : Key) (slot : Option EquipmentSlot) → Keeps IsValid (unequip_item id slot)
unfolding unequip_item get_profile
unequip_item-Keeps id slot = search (keeps_rules, update_equipment-Keeps) depth 20

update_equipment_fails :
    (id : Key) (equipment : Equipment) (db : Db)
    → lookup id db.players ≡ none
    → (update_equipment id equipment db).1 ≡ db
unfolding update_equipment
update_equipment_fails id equipment db absent = ground arith

update_equipment_result :
    (id : Key) (equipment : Equipment) (db : Db) (p : Profile)
    → lookup id db.players ≡ some p
    → (update_equipment id equipment db).1
      ≡ record db { players = insert id (record p { equipment = equipment }) db.players }
unfolding update_equipment
update_equipment_result id equipment db p found = ground arith

-- Equipment is not the inventory's.
update_equipment-inventories :
    (P : Inventory.Db → Type 0) (id : Key) (equipment : Equipment)
    → Keeps (λ (db : Db). P db.inventories) (update_equipment id equipment)
unfolding update_equipment
update_equipment-inventories P id equipment = record {
  at = λ db h. elim (Option-cases (lookup id db.players)) [
    | inl absent ↦ rw (update_equipment_fails id equipment db absent) h
    | inr (p, found) ↦ rw (update_equipment_result id equipment db p found) h
  ];
}

pub equip_item-inventories :
    (P : Inventory.Db → Type 0) (id : Key) (slot : Option EquipmentSlot) (item : Key)
    → Keeps (λ (db : Db). P db.inventories) (equip_item id slot item)
unfolding equip_item get_profile
equip_item-inventories P id slot item =
    search (keeps_rules, update_equipment-inventories P) depth 20

pub unequip_item-inventories :
    (P : Inventory.Db → Type 0) (id : Key) (slot : Option EquipmentSlot)
    → Keeps (λ (db : Db). P db.inventories) (unequip_item id slot)
unfolding unequip_item get_profile
unequip_item-inventories P id slot = search (keeps_rules, update_equipment-inventories P) depth 20

-- what the transaction writes, for a player `p` that is there
abbrev pub leveled : Profile → ℕ → Profile
leveled p experience = record p {
  experience = experience;
  level = level_from_experience experience;
}

abbrev pub leveled_row : Key → Profile → ℕ → Option Row → Row
leveled_row id p experience = upserted (record {
  player_id = id;
  username = p.username;
  experience = experience;
  level = level_from_experience experience;
  wins = none;
})

abbrev pub leveled_db : Key → Profile → ℕ → Db → Db
leveled_db id p experience db = record db {
  players = insert id (leveled p experience) db.players;
  leaderboard = insert id (leveled_row id p experience (lookup id db.leaderboard)) db.leaderboard;
}

pub write_experience_result :
    (id : Key) (experience : ℕ) (db : Db) (p : Profile)
    → lookup id db.players ≡ some p
    → write_experience id experience db ≡ (ok (leveled p experience), leveled_db id p experience db)
unfolding write_experience
write_experience_result id experience db p found = ground arith

pub write_experience_fails :
    (id : Key) (experience : ℕ) (db : Db)
    → lookup id db.players ≡ none
    → write_experience id experience db ≡ (err (unexpected "P2025"), db)
unfolding write_experience
write_experience_fails id experience db absent = ground arith

upserted-row_for :
    (id : Key) (p : Profile) (experience : ℕ) (db : Db)
    → lookup id db.players ≡ some p
    → IsValid db
    → let db' = leveled_db id p experience db in
      IsProfile id (leveled p experience) (lookup id db'.leaderboard)
upserted-row_for id p experience db found v =
    let row = leveled_row id p experience (lookup id db.leaderboard) in
    ground (arith, v id p found, lookup-insert_self id row db.leaderboard)

write_experience-IsValid :
    (id : Key) (experience : ℕ) (db : Db)
    → IsValid db
    → IsValid (write_experience id experience db).1
write_experience-IsValid id experience db v = elim (Option-cases (lookup id db.players)) [
  | inl absent ↦ rw (write_experience_fails id experience db absent) v
  | inr (p, found) ↦
      let db' = leveled_db id p experience db in
      rw (write_experience_result id experience db p found) (
        written-IsValid id (leveled p experience) db'.leaderboard db v
          (upserted-row_for id p experience db found v)
          (other_row id (leveled_row id p experience (lookup id db.leaderboard)) db))
]

-- a call of the service, or of the repository of the leaderboard
pub data Call : Type 0 where
  create : (id user_id username : Key) → Call
  equip : (player_id : Key) → (slot : Option EquipmentSlot) → (item_key : Key) → Call
  unequip : (player_id : Key) → (slot : Option EquipmentSlot) → Call
  gain : (player_id : Key) → (amount : ℤ) → Call
  win : (player_id : Key) → Call

abbrev perform : Call → Db → Db
perform (create id user_id username) db = create_profile id user_id username db
perform (equip id slot item) db = (equip_item id slot item db).1
perform (unequip id slot) db = (unequip_item id slot db).1
perform (gain id amount) db = (add_experience id amount db).1
perform (win id) db = record db { leaderboard = (increment_wins id db.leaderboard).1 }

pub run : List Call → Db → Db
run [] db = db
run (call ∷ calls) db = run calls (perform call db)

write_experience-Keeps :
    (id : Key) (experience : ℕ) → Keeps IsValid (write_experience id experience)
write_experience-Keeps id experience = record { at = write_experience-IsValid id experience }

add_experience-Keeps : (id : Key) (amount : ℤ) → Keeps IsValid (add_experience id amount)
unfolding add_experience read_experience
add_experience-Keeps id amount = search (keeps_rules, write_experience-Keeps) depth 20

increment_wins-IsValid :
    (id : Key) (db : Db)
    → IsValid db
    → IsValid (record db { leaderboard = (increment_wins id db.leaderboard).1 })
unfolding increment_wins
increment_wins-IsValid id db v q p e = elim (Option-cases (lookup id db.leaderboard)) [
  | inl absent ↦ ground (arith, v q p e)
  | inr (row, found) ↦
      ground
        (arith, v q p e, lookup-insert id q (record row { wins = row.wins + 1 }) db.leaderboard)
]

perform-IsValid : (call : Call) (db : Db) → IsValid db → IsValid (perform call db)
perform-IsValid (create id user_id username) = create_profile-IsValid id user_id username
perform-IsValid (equip id slot item) = (equip_item-Keeps id slot item).at
perform-IsValid (unequip id slot) = (unequip_item-Keeps id slot).at
perform-IsValid (gain id amount) = (add_experience-Keeps id amount).at
perform-IsValid (win id) = increment_wins-IsValid id

-- Where every player stands under its own id, has the level of its experience and a row of the
-- leaderboard with its name, experience and level, the same holds after any sequence of new
-- players, equipping and unequipping, gains of experience and wins.
pub run-IsProfile : (calls : List Call) (db : Db) → IsValid db → IsValid (run calls db)
unfolding run
run-IsProfile [] db v = v
run-IsProfile (call ∷ calls) db v =
    run-IsProfile calls (perform call db) (perform-IsValid call db v)
