-- ===== src/Inventory/Items.antt =====
-- The items of one inventory, and what the writes do to them.
use realtime_game_server.Base.{
  ◌≤◌, ◌≡◌, refl, Option, none, some, List, [], ◌∷◌, ◌++◌, arith, Key, ◌==◌, if◌then◌else◌, length,
  is_some,
}
use realtime_game_server.Base.Int.{ℤ, pos, ◌≤ℤ◌}
use realtime_game_server.Inventory.{Item, find_item, set_quantity, delete_item}

-- Every quantity is positive and no item key stands twice.
abbrev pub AreItems : List Item → Type 0
AreItems [] = Unit
AreItems (item ∷ items) =
    (pos 1 ≤ℤ item.quantity) × (find_item item.item_key items ≡ none) × AreItems items

-- the quantity under a key, zero if there is no item
abbrev pub amount_of : Option Item → ℤ
amount_of none = pos 0
amount_of (some item) = item.quantity

abbrev pub quantity_of : Key → List Item → ℤ
quantity_of key items = amount_of (find_item key items)

pub find_item-append :
    (j : Key) (new : Item) (items : List Item)
    → find_item j (items ++ new ∷ []) ≡ (
        if is_some (find_item j items)
        then find_item j items
        else if new.item_key == j
        then some new
        else none)
unfolding find_item
find_item-append j new [] = refl
find_item-append j new (item ∷ items) = ground (arith, find_item-append j new items)

module _ (key : Key) where
  abbrev rewritten : ℤ → Option Item → Option Item
  rewritten q none = none
  rewritten q (some item) = some (record item { quantity = q })

  pub find_item-set_quantity :
      (j : Key) (q : ℤ) (items : List Item)
      → find_item j (set_quantity key q items)
        ≡ (if key == j then rewritten q (find_item key items) else find_item j items)
  unfolding find_item set_quantity
  find_item-set_quantity j q [] = ground arith
  find_item-set_quantity j q (item ∷ items) = ground (arith, find_item-set_quantity j q items)

  pub find_item-delete_item :
      (j : Key) (items : List Item)
      → AreItems items
      → find_item j (delete_item key items) ≡ (if key == j then none else find_item j items)
  unfolding find_item delete_item
  find_item-delete_item j [] h = ground arith
  find_item-delete_item j (item ∷ items) h = ground (arith, find_item-delete_item j items h.2)

  pub AreItems-set_quantity :
      (q : ℤ) (items : List Item)
      → pos 1 ≤ℤ q
      → AreItems items
      → AreItems (set_quantity key q items)
  unfolding set_quantity
  AreItems-set_quantity q [] h v = tt
  AreItems-set_quantity q (item ∷ items) h v =
      ground
        (arith, AreItems-set_quantity q items h v.2, find_item-set_quantity item.item_key q items)

  pub AreItems-delete_item : (items : List Item) → AreItems items → AreItems (delete_item key items)
  unfolding delete_item
  AreItems-delete_item [] v = tt
  AreItems-delete_item (item ∷ items) v =
      ground (arith, AreItems-delete_item items v.2, find_item-delete_item item.item_key items v.2)

  pub length-set_quantity :
      (q : ℤ) (items : List Item) → length (set_quantity key q items) ≡ length items
  unfolding set_quantity
  length-set_quantity q [] = refl
  length-set_quantity q (item ∷ items) = ground (arith, length-set_quantity q items)

  pub length-delete_item-le : (items : List Item) → length (delete_item key items) ≤ length items
  unfolding delete_item
  length-delete_item-le [] = omega arith
  length-delete_item-le (item ∷ items) = ground (arith, length-delete_item-le items)

pub AreItems-append :
    (new : Item) (items : List Item)
    → pos 1 ≤ℤ new.quantity
    → find_item new.item_key items ≡ none
    → AreItems items
    → AreItems (items ++ new ∷ [])
unfolding find_item
AreItems-append new [] h n v = (h, refl, tt)
AreItems-append new (item ∷ items) h n v =
    ground (arith, AreItems-append new items h, find_item-append item.item_key new items)

-- An item of a valid list has a positive quantity, and the key it was found by.
pub find_item_facts :
    (key : Key) (item : Item) (items : List Item)
    → AreItems items
    → find_item key items ≡ some item
    → (pos 1 ≤ℤ item.quantity) × (item.item_key ≡ key)
unfolding find_item
find_item_facts key item [] v h = ground arith
find_item_facts key item (x ∷ items) v h = ground (arith, find_item_facts key item items v.2)
