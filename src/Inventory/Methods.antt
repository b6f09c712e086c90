-- ===== src/Inventory/Methods.antt =====
-- The methods of the inventory service: their answers, the quantities and the invariant.
use realtime_game_server.Base.{
  ◌≤◌, ◌≡◌, ◌⊎◌, refl, ◌∙◌, Bool, false, not, ◌&&◌, Option, none, some, List, [], inl, inr, arith,
  Key, ◌==◌, leb, if◌then◌else◌, length, is_some, get_or, Option-cases, Bool-cases,
}
use realtime_game_server.Base.Int.{ℤ, pos, ◌+ℤ◌, ◌-ℤ◌, ltb_ℤ, leb_ℤ}
use realtime_game_server.Base.Dict.{lookup, insert, lookup-insert, lookup-insert_self}
use realtime_game_server.Base.Action.{ok, err, validation, conflict}
use realtime_game_server.Inventory.{
  Item, Inventory, Db, AddItemInput, default_inventory_capacity, new_inventory, find_item,
  write_items, ensure_for_player, added, left_item, left_items, repository_add_item,
  repository_remove_item, get_inventory, add_item, remove_item,
}
use realtime_game_server.Inventory.Items.{AreItems, quantity_of}
use realtime_game_server.Inventory.Keeps.{
  IsInventory, IsValid, only_at, added-quantity, added-AreItems, added-length, left_items-quantity,
  left_items-AreItems, left_items-length,
}

-- the inventory that a player has, or is given at the first access
abbrev pub inventory_of : Key → Db → Inventory
inventory_of p db = get_or (lookup p db) (new_inventory p default_inventory_capacity)

-- the database after the first access
abbrev pub ensured : Key → Db → Db
ensured p db = if is_some (lookup p db) then db else insert p (inventory_of p db) db

abbrev pub is_full : AddItemInput → Inventory → Bool
is_full input inv =
    not (is_some (find_item input.item_key inv.items)) && leb inv.capacity (length inv.items)

-- Adding an item, on every branch: a quantity that is not positive or a full inventory throws, and
-- only the inventory itself may have been created; else the item is added.
pub add_item_result :
    (p : Key) (input : AddItemInput) (db : Db)
    → let inv = inventory_of p db in
      let result = added (find_item input.item_key inv.items) input inv.items in
      add_item p input db ≡ (
        if leb_ℤ input.quantity (pos 0)
        then (err (validation "Quantity must be positive"), ensured p db)
        else if is_full input inv
        then (err (conflict "Inventory is full"), ensured p db)
        else (ok result.0, write_items p inv result.1 (ensured p db)))
unfolding add_item get_inventory ensure_for_player repository_add_item
add_item_result p input db = elim (Option-cases (lookup p db)) [
  | inl absent ↦
      ground (arith, lookup-insert_self p (new_inventory p default_inventory_capacity) db)
  | inr (inv, found) ↦ ground arith
]

-- Removing an item, on every branch.
pub remove_item_result :
    (p key : Key) (quantity : ℤ) (db : Db) (inv : Inventory) (item : Item)
    → lookup p db ≡ some inv
    → find_item key inv.items ≡ some item
    → remove_item p key quantity db ≡ (
        if leb_ℤ quantity (pos 0)
        then (err (validation "Quantity must be positive"), db)
        else if ltb_ℤ item.quantity quantity
        then (err (validation "Insufficient item quantity"), db)
        else (
          ok (left_item item quantity),
          write_items p inv (left_items (left_item item quantity) key inv.items) db,
        ))
unfolding remove_item repository_remove_item
remove_item_result p key quantity db inv item found has = ground arith

remove_item_fails :
    (p key : Key) (quantity : ℤ) (db : Db)
    → (lookup p db ≡ none)
      ⊎ ((inv : Inventory) × (lookup p db ≡ some inv) × (find_item key inv.items ≡ none))
    → (remove_item p key quantity db).1 ≡ db
unfolding remove_item repository_remove_item
remove_item_fails p key quantity db h = elim h [
  | inl absent ↦ ground arith
  | inr (inv, found, lacks) ↦ ground arith
]

pub write_items-IsValid :
    (p : Key) (inv : Inventory) (items : List Item) (db : Db)
    → length items ≤ inv.capacity
    → AreItems items
    → IsValid db
    → IsValid (write_items p inv items db)
write_items-IsValid p inv items db c a v q x e = elim (Bool-cases (p == q)) [
  | inl same ↦
      let h : record inv { items = items } ≡ x =
        ground (arith, lookup-insert p q (record inv { items = items }) db) in
      rw (← h) (record { fits = c; sound = a })
  | inr other ↦ v q x (ground (arith, lookup-insert p q (record inv { items = items }) db))
]

inventory_of-IsInventory : (p : Key) (db : Db) → IsValid db → IsInventory (inventory_of p db)
inventory_of-IsInventory p db v = elim (Option-cases (lookup p db)) [
  | inl absent ↦ rw absent (record { fits = omega arith; sound = tt })
  | inr (inv, found) ↦ rw found (v p inv found)
]

ensured-IsValid : (p : Key) (db : Db) → IsValid db → IsValid (ensured p db)
ensured-IsValid p db v = elim (Option-cases (lookup p db)) [
  | inl absent ↦
      rw absent (
        write_items-IsValid p (new_inventory p default_inventory_capacity) [] db (omega arith) tt v)
  | inr (inv, found) ↦ rw found v
]

get_inventory-ensured : (p : Key) (db : Db) → (get_inventory p db).1 ≡ ensured p db
unfolding get_inventory ensure_for_player
get_inventory-ensured p db = elim (Option-cases (lookup p db)) [
  | inl absent ↦ ground arith
  | inr (inv, found) ↦ ground arith
]

pub get_inventory-IsValid : (p : Key) (db : Db) → IsValid db → IsValid (get_inventory p db).1
get_inventory-IsValid p db v = rw (get_inventory-ensured p db) (ensured-IsValid p db v)

-- Adding keeps every inventory within its capacity, with positive quantities and distinct keys.
pub add_item-IsValid :
    (p : Key) (input : AddItemInput) (db : Db) → IsValid db → IsValid (add_item p input db).1
add_item-IsValid p input db v =
    let inv = inventory_of p db in
    let own = inventory_of-IsInventory p db v in
    let base = ensured-IsValid p db v in
    rw (add_item_result p input db) (elim (Bool-cases (leb_ℤ input.quantity (pos 0))) [
      | inl bad ↦ rw bad base
      | inr good ↦ elim (Bool-cases (is_full input inv)) [
        | inl full ↦ rw (good, full) base
        | inr free ↦
            rw (good, free)
              (write_items-IsValid p inv
                (added (find_item input.item_key inv.items) input inv.items).1 (ensured p db)
                (ground (arith, added-length input inv.items, own.fits))
                (added-AreItems input inv.items (ground arith) own.sound) base)
      ]
    ])

-- Removing keeps every inventory within its capacity, with positive quantities and distinct keys.
pub remove_item-IsValid :
    (p key : Key) (quantity : ℤ) (db : Db) → IsValid db → IsValid (remove_item p key quantity db).1
remove_item-IsValid p key quantity db v = elim (Option-cases (lookup p db)) [
  | inl absent ↦ rw (remove_item_fails p key quantity db (inl absent)) v
  | inr (inv, found) ↦ elim (Option-cases (find_item key inv.items)) [
    | inl lacks ↦ rw (remove_item_fails p key quantity db (inr (inv, found, lacks))) v
    | inr (item, has) ↦
        rw (remove_item_result p key quantity db inv item found has)
          (elim (Bool-cases (leb_ℤ quantity (pos 0))) [
            | inl bad ↦ rw bad v
            | inr good ↦ elim (Bool-cases (ltb_ℤ item.quantity quantity)) [
              | inl short ↦ rw (good, short) v
              | inr covered ↦
                  rw (good, covered)
                    (write_items-IsValid p inv (left_items (left_item item quantity) key inv.items)
                      db
                      (omega (
                        arith,
                        left_items-length key quantity item inv.items,
                        (v p inv found).fits,
                      ))
                      (left_items-AreItems key quantity item inv.items (v p inv found).sound
                        covered)
                      v)
            ]
          ])
  ]
]

-- How many of an item a player has.
abbrev pub quantity_in : Key → Key → Db → ℤ
quantity_in p j db = quantity_of j (inventory_of p db).items

lookup-ensured : (p : Key) (db : Db) → lookup p (ensured p db) ≡ some (inventory_of p db)
lookup-ensured p db = elim (Option-cases (lookup p db)) [
  | inl absent ↦ rw absent (lookup-insert_self p _ db)
  | inr (inv, found) ↦ rw (found, found) refl
]

written_quantity :
    (p j : Key) (inv : Inventory) (items : List Item) (db : Db)
    → quantity_in p j (write_items p inv items db) ≡ quantity_of j items
written_quantity p j inv items db = rw lookup-insert_self refl

-- In a valid database, an addition that succeeds raises what the player has of the item by the
-- quantity that was asked for, and changes no other item of the player.
pub add_item_quantity :
    (p : Key) (input : AddItemInput) (db : Db) (x : Item) (j : Key)
    → IsValid db
    → (add_item p input db).0 ≡ ok x
    → quantity_in p j (add_item p input db).1
      ≡ quantity_in p j db +ℤ only_at input.item_key j input.quantity
add_item_quantity p input db x j v h =
    let inv = inventory_of p db in
    let items = (added (find_item input.item_key inv.items) input inv.items).1 in
    let own = inventory_of-IsInventory p db v in
    let good : leb_ℤ input.quantity (pos 0) ≡ false = ground (arith, add_item_result p input db) in
    let free : is_full input inv ≡ false = ground (arith, add_item_result p input db) in
    rw (add_item_result p input db, good, free)
      (written_quantity p j inv items (ensured p db) ∙ added-quantity input inv.items j own.sound)

-- In a valid database, a removal that succeeds lowers what the player has of the item by the
-- quantity that was asked for, and changes no other item of the player.
pub remove_item_quantity :
    (p key : Key) (quantity : ℤ) (db : Db) (x : Option Item) (j : Key)
    → IsValid db
    → (remove_item p key quantity db).0 ≡ ok x
    → quantity_in p j (remove_item p key quantity db).1
      ≡ quantity_in p j db -ℤ only_at key j quantity
remove_item_quantity p key quantity db x j v h = elim (Option-cases (lookup p db)) [
  | inl absent ↦ absurd (unfold remove_item repository_remove_item in ground arith)
  | inr (inv, found) ↦ elim (Option-cases (find_item key inv.items)) [
    | inl lacks ↦ absurd (unfold remove_item repository_remove_item in ground arith)
    | inr (item, has) ↦
        let good : leb_ℤ quantity (pos 0) ≡ false =
          unfold remove_item repository_remove_item in ground arith in
        let covered : ltb_ℤ item.quantity quantity ≡ false =
          unfold remove_item repository_remove_item in ground arith in
        rw (remove_item_result p key quantity db inv item found has, good, covered)
          (written_quantity p j inv (left_items (left_item item quantity) key inv.items) db
            ∙ left_items-quantity key quantity item inv.items j (v p inv found).sound has
            ∙ (rw found refl))
  ]
]
