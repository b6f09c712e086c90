-- ===== src/Inventory/Keeps.antt =====
-- What adding and removing items does to an inventory.
use realtime_game_server.Base.{
  ◌+◌, ◌≤◌, ◌≡◌, true, false, some, List, [], ◌∷◌, inl, inr, arith, Key, ◌==◌, if◌then◌else◌,
  length, is_some, length-append, Option-cases, Bool-cases,
}
use realtime_game_server.Base.Int.{ℤ, pos, ◌+ℤ◌, ◌-ℤ◌, ◌≤ℤ◌, int_laws, ltb_ℤ, eqb_ℤ, -ℤ_parts}
use realtime_game_server.Base.Dict.{lookup}
use realtime_game_server.Inventory.{
  Item, Inventory, Db, AddItemInput, created_item, find_item, added, left_item, left_items,
}
use realtime_game_server.Inventory.Items.{
  AreItems, quantity_of, find_item-set_quantity, find_item-delete_item, find_item-append,
  AreItems-set_quantity, AreItems-delete_item, AreItems-append, length-set_quantity,
  length-delete_item-le, find_item_facts,
}

-- Within the capacity, with positive quantities and distinct keys.
pub record IsInventory (inventory : Inventory) : Type 0 where
  pub fits : length inventory.items ≤ inventory.capacity
  pub sound : AreItems inventory.items

abbrev pub IsValid : Db → Type 0
IsValid db =
    (p : Key) (inventory : Inventory) → lookup p db ≡ some inventory → IsInventory inventory

abbrev pub only_at : Key → Key → ℤ → ℤ
only_at key j q = if key == j then q else pos 0

add_zero : (a : ℤ) → a +ℤ pos 0 ≡ a
add_zero a = omega int_laws

zero_add : (a : ℤ) → pos 0 +ℤ a ≡ a
zero_add a = omega int_laws

sub_zero : (a : ℤ) → a -ℤ pos 0 ≡ a
sub_zero a = omega int_laws

sub_self : (a b : ℤ) → eqb_ℤ a b ≡ true → a -ℤ b ≡ pos 0
unfolding ◌-ℤ◌
sub_self a b h = ground arith

-- Adding changes the quantity under the key, and no other.
pub added-quantity :
    (input : AddItemInput) (items : List Item) (j : Key)
    → AreItems items
    → quantity_of j (added (find_item input.item_key items) input items).1
      ≡ quantity_of j items +ℤ only_at input.item_key j input.quantity
added-quantity input items j v = elim (Option-cases (find_item input.item_key items)) [
  | inl new ↦ rw new (
      unfold added in
      ground (
        arith,
        find_item-append j (created_item input) items,
        zero_add input.quantity,
        add_zero (quantity_of j items),
      ))
  | inr (item, old) ↦ rw old (
      unfold added in
      ground (
        arith,
        find_item-set_quantity input.item_key j (item.quantity +ℤ input.quantity) items,
        add_zero (quantity_of j items),
      ))
]

pub added-AreItems :
    (input : AddItemInput) (items : List Item)
    → pos 1 ≤ℤ input.quantity
    → AreItems items
    → AreItems (added (find_item input.item_key items) input items).1
added-AreItems input items h v = elim (Option-cases (find_item input.item_key items)) [
  | inl new ↦ rw new (unfold added in AreItems-append (created_item input) items h new v)
  | inr (item, old) ↦
      let facts = find_item_facts input.item_key item items v old in
      rw old (
        unfold added in
        AreItems-set_quantity input.item_key (item.quantity +ℤ input.quantity) items
          (omega (int_laws, facts.0)) v)
]

pub added-length :
    (input : AddItemInput) (items : List Item)
    → length (added (find_item input.item_key items) input items).1
      ≡ (if is_some (find_item input.item_key items) then length items else length items + 1)
added-length input items = elim (Option-cases (find_item input.item_key items)) [
  | inl new ↦ rw new (unfold added in length-append items (created_item input ∷ []))
  | inr (item, old) ↦
      rw old
        (unfold added in length-set_quantity input.item_key (item.quantity +ℤ input.quantity) items)
]

-- Removing no more than there is takes the quantity under the key down, and no other.
pub left_items-quantity :
    (key : Key) (quantity : ℤ) (item : Item) (items : List Item) (j : Key)
    → AreItems items
    → find_item key items ≡ some item
    → quantity_of j (left_items (left_item item quantity) key items)
      ≡ quantity_of j items -ℤ only_at key j quantity
unfolding left_item left_items
left_items-quantity key quantity item items j v e = ground (
  arith,
  find_item-delete_item key j items v,
  find_item-set_quantity key j (item.quantity -ℤ quantity) items,
  sub_zero (quantity_of j items),
  sub_self item.quantity quantity,
)

pub left_items-AreItems :
    (key : Key) (quantity : ℤ) (item : Item) (items : List Item)
    → AreItems items
    → ltb_ℤ item.quantity quantity ≡ false
    → AreItems (left_items (left_item item quantity) key items)
unfolding left_item left_items
left_items-AreItems key quantity item items v h = elim (Bool-cases (eqb_ℤ item.quantity quantity)) [
  | inl all ↦ rw all (AreItems-delete_item key items v)
  | inr some' ↦ rw some' (
      AreItems-set_quantity key (item.quantity -ℤ quantity) items
        (ground (arith, -ℤ_parts item.quantity quantity)) v)
]

pub left_items-length :
    (key : Key) (quantity : ℤ) (item : Item) (items : List Item)
    → length (left_items (left_item item quantity) key items) ≤ length items
unfolding left_item left_items
left_items-length key quantity item items = ground (
  arith,
  length-delete_item-le key items,
  length-set_quantity key (item.quantity -ℤ quantity) items,
)
