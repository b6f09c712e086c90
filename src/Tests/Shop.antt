-- ===== src/Tests/Shop.antt =====
-- The theorems on coins, items and the rate limiter at small databases.
use realtime_game_server.Base.{
  ◌≡◌, refl, Bool-cases, inl, inr, ◌==◌, none, some, [], ◌∷◌, ◌++◌, List, arith,
}
use realtime_game_server.Base.Int.{+ℤ_parts, pos, ◌+ℤ◌, ◌-ℤ◌}
use realtime_game_server.Base.Dict.{lookup, insert}
use realtime_game_server.Base.Action.{ok}
use realtime_game_server.Economy
use realtime_game_server.Economy.{credit_player, debit_player, post}
use realtime_game_server.Economy.Ledger.{credit_row, debit_row, debit-credit}
use realtime_game_server.Economy.Reach
use realtime_game_server.Inventory
use realtime_game_server.Inventory.{
  Item, Inventory, AddItemInput, add_item, remove_item, get_inventory, repository_add_item,
  repository_remove_item, find_item, added, set_quantity, left_item, left_items, delete_item,
}
use realtime_game_server.Inventory.Keeps
use realtime_game_server.Inventory.Methods.{add_item_quantity, remove_item_quantity, quantity_in}
use realtime_game_server.RateLimit.{live}
use realtime_game_server.RateLimit.Window
use realtime_game_server.RateLimit.Window.{run_window}

abbrev shop : Economy.Db
shop = record { coins = (1, pos 100) ∷ []; transactions = [] }

balance : lookup 1 shop.coins ≡ some (pos 100)
unfolding lookup
balance = refl

debit-credit_example :
    let db' = (debit_player 1 (pos 30) 7 (credit_player 1 (pos 30) 7 shop).1).1 in
    (lookup 1 db'.coins ≡ some (pos 100))
    × (db'.transactions
        ≡ ([] ++ credit_row 1 (pos 30) 7 (pos 100) ∷ [])
          ++ debit_row 1 (pos 30) 7 (pos 100 +ℤ pos 30) ∷ [])
debit-credit_example =
    debit-credit 1 (pos 30) (pos 100) 7 shop balance (omega arith) (omega arith)
      (omega (arith, +ℤ_parts (pos 100) (pos 30)))

abbrev calls : List Reach.Call
calls =
    Reach.Call.credit 1 (pos 30) 7
    ∷ Reach.Call.debit 1 (pos 500) 7
    ∷ Reach.Call.debit 1 (pos 120) 7
    ∷ []

no_counter : live 1000 (lookup 3 []) ≡ none
unfolding live lookup
no_counter = refl

run_window_example : (Window.run 3 2 60 (1000 ∷ 2000 ∷ 3000 ∷ []) []).0 ≡ 2
run_window_example =
    run_window 3 2 60 1000 (2000 ∷ 3000 ∷ []) [] no_counter (omega arith, (omega arith, tt))

abbrev sword : Item
sword = record { item_key = 5; name = 50; quantity = pos 2; metadata = 0 }

abbrev bag : Inventory
bag = record { player_id = 1; capacity = 40; items = sword ∷ [] }

abbrev bags : Inventory.Db
bags = (1, bag) ∷ []

abbrev two_swords : AddItemInput
two_swords = record { item_key = 5; name = 50; quantity = pos 2; metadata = none }

bags-IsValid : Keeps.IsValid bags
unfolding lookup find_item
bags-IsValid p inventory e = elim (Bool-cases (1 == p)) [
  | inl own ↦
      let h : bag ≡ inventory = ground arith in
      rw (← h) (record { fits = omega arith; sound = (omega arith, refl, tt) })
  | inr other ↦ absurd (ground arith)
]

added_one : (add_item 1 two_swords bags).0 ≡ ok (record sword { quantity = pos 4 })
unfolding add_item get_inventory repository_add_item find_item lookup added set_quantity ◌+ℤ◌ insert
added_one = refl

add_item_quantity_example :
    quantity_in 1 5 (add_item 1 two_swords bags).1 ≡ quantity_in 1 5 bags +ℤ pos 2
add_item_quantity_example =
    add_item_quantity 1 two_swords bags (record sword { quantity = pos 4 }) 5 bags-IsValid added_one

removed_all : (remove_item 1 5 (pos 2) bags).0 ≡ ok none
unfolding remove_item repository_remove_item find_item lookup left_item left_items delete_item
removed_all = refl

remove_item_quantity_example :
    quantity_in 1 5 (remove_item 1 5 (pos 2) bags).1 ≡ quantity_in 1 5 bags -ℤ pos 2
remove_item_quantity_example = remove_item_quantity 1 5 (pos 2) bags none 5 bags-IsValid removed_all
