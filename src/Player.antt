-- ===== src/Player.antt =====
-- src/application/services/player-service.ts over
-- src/infrastructure/database/prisma-player-repository.ts, with the entities of
-- src/domain/entities/player.ts and the constants of src/shared/constants/game.ts. A profile stands
-- under its player's id, and so does the row of the leaderboard, which the repository writes too. The
-- times of the rows are left out; experience is taken below the bound of the column.
pub mod Experience
pub mod Overlap
use realtime_game_server.Base.{ℕ, ◌+◌, ◌/◌, max, not, Option, none, some, Key, ◌==◌, is_some, find?}
use realtime_game_server.Base.Int.{ℤ, pos, pos_part, leb_ℤ}
use realtime_game_server.Base.Dict.{Dict, lookup, insert, values}
use realtime_game_server.Base.Action.{
  not_found, validation, unexpected, Action, pure, gets, or_throw, throw_if, modify, transaction,
  ◌>>=◌, ◌>>◌,
}
use realtime_game_server.Leaderboard
use realtime_game_server.Leaderboard.{upserted}
use realtime_game_server.Inventory
use realtime_game_server.Inventory.{Inventory, find_item}

pub data EquipmentSlot : Type 0 where
  weapon helmet chest legs boots accessory : EquipmentSlot

-- `none` for a key that the object lacks
pub record Equipment : Type 0 where
  pub weapon : Option Key
  pub helmet : Option Key
  pub chest : Option Key
  pub legs : Option Key
  pub boots : Option Key
  pub accessory : Option Key

abbrev pub empty_equipment : Equipment
empty_equipment = record {
  weapon = none;
  helmet = none;
  chest = none;
  legs = none;
  boots = none;
  accessory = none;
}

-- `next[slot] = itemKey`, and `delete next[slot]` for `none`
unfoldable pub set_equipment_slot : Equipment → EquipmentSlot → Option Key → Equipment
set_equipment_slot e weapon item = record e { weapon = item }
set_equipment_slot e helmet item = record e { helmet = item }
set_equipment_slot e chest item = record e { chest = item }
set_equipment_slot e legs item = record e { legs = item }
set_equipment_slot e boots item = record e { boots = item }
set_equipment_slot e accessory item = record e { accessory = item }

pub record Profile : Type 0 where
  pub id : Key
  pub user_id : Key
  pub username : Key
  pub experience : ℕ
  pub level : ℕ
  pub equipment : Equipment

pub record Db : Type 0 where
  pub players : Dict Profile
  pub leaderboard : Leaderboard.Db
  pub inventories : Inventory.Db

abbrev pub xp_per_level : ℕ
xp_per_level = 1000

unfoldable pub level_from_experience : ℕ → ℕ
level_from_experience experience = max 1 (experience / xp_per_level + 1)

-- the rows that a new player gets beside its inventory
unfoldable pub create_profile : Key → Key → Key → Db → Db
create_profile id user_id username db = record db {
  players =
      insert id
        (record {
          id = id;
          user_id = user_id;
          username = username;
          experience = 0;
          level = 1;
          equipment = empty_equipment;
        })
        db.players;
  leaderboard =
      insert id
        (record { player_id = id; username = username; experience = 0; level = 1; wins = 0 })
        db.leaderboard;
}

unfoldable pub get_profile : Key → Action Db Profile
get_profile player_id = do
  found ← gets (λ db. lookup player_id db.players)
  or_throw found (not_found "Player")

unfoldable pub get_profile_by_user_id : Key → Action Db Profile
get_profile_by_user_id user_id = do
  found ← gets (λ db. find? (λ p. p.user_id == user_id) (values db.players))
  or_throw found (not_found "Player")

-- `PlayerRepository.updateEquipment`
unfoldable pub update_equipment : Key → Equipment → Action Db Profile
update_equipment player_id equipment = do
  found ← gets (λ db. lookup player_id db.players)
  player ← or_throw found (unexpected "P2025")
  let player' = record player { equipment = equipment }
  modify (λ db. record db { players = insert player_id player' db.players })
  pure player'

-- `slot` is `none` for a text that names no slot
unfoldable pub equip_item : Key → Option EquipmentSlot → Key → Action Db Profile
equip_item player_id slot item_key = do
  slot' ← or_throw slot (validation "Invalid equipment slot")
  inventory ← gets (λ db. lookup player_id db.inventories)
  inventory' ← or_throw inventory (not_found "Inventory")
  throw_if (not (is_some (find_item item_key inventory'.items))) (not_found "Inventory item")
  player ← get_profile player_id
  update_equipment player_id (set_equipment_slot player.equipment slot' (some item_key))

unfoldable pub unequip_item : Key → Option EquipmentSlot → Action Db Profile
unequip_item player_id slot = do
  slot' ← or_throw slot (validation "Invalid equipment slot")
  player ← get_profile player_id
  update_equipment player_id (set_equipment_slot player.equipment slot' none)

-- the second half of `PlayerRepository.addExperience`: the transaction, with what was read before it
unfoldable pub write_experience : Key → ℕ → Action Db Profile
write_experience player_id experience = transaction (do
  found ← gets (λ db. lookup player_id db.players)
  player ← or_throw found (unexpected "P2025")
  let level = level_from_experience experience
  let updated = record player { experience = experience; level = level }
  row ← gets (λ db. lookup player_id db.leaderboard)
  modify (λ db. record db {
    players = insert player_id updated db.players;
    leaderboard =
        insert player_id
          (upserted
            (record {
              player_id = player_id;
              username = updated.username;
              experience = experience;
              level = level;
              wins = none;
            })
            row)
          db.leaderboard;
  })
  pure updated)

-- the first half: `findUniqueOrThrow`
unfoldable pub read_experience : Key → ℕ → Action Db ℕ
read_experience player_id amount = do
  found ← gets (λ db. lookup player_id db.players)
  current ← or_throw found (unexpected "P2025")
  pure (current.experience + amount)

unfoldable pub add_experience : Key → ℤ → Action Db Profile
add_experience player_id amount = do
  throw_if (leb_ℤ amount (pos 0)) (validation "Experience amount must be positive")
  experience ← read_experience player_id (pos_part amount)
  write_experience player_id experience
