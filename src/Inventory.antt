-- ===== src/Inventory.antt =====
-- src/application/services/inventory-service.ts over
-- src/infrastructure/database/prisma-inventory-repository.ts. An inventory stands under its player,
-- with its items in the order of creation; ids and times are left out, since an item is found by its
-- unique pair (inventory, item key).
pub mod Items
pub mod Keeps
pub mod Methods
pub mod Reach
use realtime_game_server.Base.{
  ℕ, Bool, Option, none, some, List, [], ◌∷◌, ◌++◌, not, ◌&&◌, Key, ◌==◌, leb, if◌then◌else◌,
  is_some, length, find?, get_or,
}
use realtime_game_server.Base.Int.{ℤ, pos, ◌+ℤ◌, ◌-ℤ◌, ltb_ℤ, leb_ℤ, eqb_ℤ}
use realtime_game_server.Base.Dict.{Dict, lookup, insert}
use realtime_game_server.Base.Action.{
  not_found, conflict, validation, Action, pure, gets, or_throw, throw_if, modify, transaction,
  ◌>>=◌, ◌>>◌,
}

pub record Item : Type 0 where
  pub item_key : Key
  pub name : Key
  pub quantity : ℤ
  pub metadata : Key

pub record Inventory : Type 0 where
  pub player_id : Key
  pub capacity : ℕ
  pub items : List Item

abbrev pub Db : Type 0
Db = Dict Inventory

pub record AddItemInput : Type 0 where
  pub item_key : Key
  pub name : Key
  pub quantity : ℤ
  pub metadata : Option Key

abbrev pub default_inventory_capacity : ℕ
default_inventory_capacity = 40

-- the metadata `{}`
abbrev pub no_metadata : Key
no_metadata = 0

unfoldable pub find_item : Key → List Item → Option Item
find_item key items = find? (λ item. item.item_key == key) items

-- `update` of the quantity of the item with this key
unfoldable pub set_quantity : Key → ℤ → List Item → List Item
set_quantity key quantity [] = []
set_quantity key quantity (item ∷ items) =
    if item.item_key == key
    then record item { quantity = quantity } ∷ items
    else item ∷ set_quantity key quantity items

-- `delete` of the item with this key
unfoldable pub delete_item : Key → List Item → List Item
delete_item key [] = []
delete_item key (item ∷ items) =
    if item.item_key == key then items else item ∷ delete_item key items

abbrev pub write_items : Key → Inventory → List Item → Db → Db
write_items player_id inventory items = insert player_id (record inventory { items = items })

abbrev pub new_inventory : Key → ℕ → Inventory
new_inventory player_id capacity = record { player_id = player_id; capacity = capacity; items = [] }

-- `upsert` with an empty update
unfoldable pub ensure_for_player : Key → ℕ → Action Db Inventory
ensure_for_player player_id capacity = do
  found ← gets (lookup player_id)
  let inventory = get_or found (new_inventory player_id capacity)
  modify (insert player_id inventory)
  pure inventory

abbrev pub created_item : AddItemInput → Item
created_item input = record {
  item_key = input.item_key;
  name = input.name;
  quantity = input.quantity;
  metadata = get_or input.metadata no_metadata;
}

-- the item after an addition, and the list that holds it
unfoldable pub added : Option Item → AddItemInput → List Item → Item × List Item
added none input items = (created_item input, items ++ created_item input ∷ [])
added (some existing) input items =
    let quantity = existing.quantity +ℤ input.quantity in
    (record existing { quantity = quantity }, set_quantity input.item_key quantity items)

-- `PrismaInventoryRepository.addItem`
unfoldable pub repository_add_item : Key → AddItemInput → Action Db Item
repository_add_item player_id input = do
  throw_if (leb_ℤ input.quantity (pos 0)) (validation "Quantity must be positive")
  transaction (do
    found ← gets (lookup player_id)
    inventory ← or_throw found (not_found "Inventory")
    let existing = find_item input.item_key inventory.items
    throw_if (not (is_some existing) && leb inventory.capacity (length inventory.items))
        (conflict "Inventory is full")
    let result = added existing input inventory.items
    modify (write_items player_id inventory result.1)
    pure result.0)

-- what is left of an item after a removal, `none` if nothing
unfoldable pub left_item : Item → ℤ → Option Item
left_item existing quantity =
    if eqb_ℤ existing.quantity quantity
    then none
    else some (record existing { quantity = existing.quantity -ℤ quantity })

unfoldable pub left_items : Option Item → Key → List Item → List Item
left_items none key items = delete_item key items
left_items (some item) key items = set_quantity key item.quantity items

-- `PrismaInventoryRepository.removeItem`
unfoldable pub repository_remove_item : Key → Key → ℤ → Action Db (Option Item)
repository_remove_item player_id key quantity = do
  throw_if (leb_ℤ quantity (pos 0)) (validation "Quantity must be positive")
  transaction (do
    found ← gets (lookup player_id)
    inventory ← or_throw found (not_found "Inventory")
    existing ← or_throw (find_item key inventory.items) (not_found "Inventory item")
    throw_if (ltb_ℤ existing.quantity quantity) (validation "Insufficient item quantity")
    let rest = left_item existing quantity
    modify (write_items player_id inventory (left_items rest key inventory.items))
    pure rest)

unfoldable pub get_inventory : Key → Action Db Inventory
get_inventory player_id = do
  found ← gets (lookup player_id)
  elim found [
    | none ↦ ensure_for_player player_id default_inventory_capacity
    | some inventory ↦ pure inventory
  ]

unfoldable pub add_item : Key → AddItemInput → Action Db Item
add_item player_id input = get_inventory player_id >>= λ _. repository_add_item player_id input

unfoldable pub remove_item : Key → Key → ℤ → Action Db (Option Item)
remove_item player_id key quantity = do
  found ← gets (lookup player_id)
  throw_if (not (is_some found)) (not_found "Inventory")
  repository_remove_item player_id key quantity
