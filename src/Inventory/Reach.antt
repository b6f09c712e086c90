-- ===== src/Inventory/Reach.antt =====
-- Any sequence of calls of the inventory service.
use realtime_game_server.Base.{List, [], ◌∷◌, Key}
use realtime_game_server.Base.Int.{ℤ}
use realtime_game_server.Inventory.{Db, AddItemInput, get_inventory, add_item, remove_item}
use realtime_game_server.Inventory.Keeps.{IsValid}
use realtime_game_server.Inventory.Methods.{
  get_inventory-IsValid, add_item-IsValid, remove_item-IsValid,
}

-- a call of the service
pub data Call : Type 0 where
  get : (player_id : Key) → Call
  add : (player_id : Key) → (input : AddItemInput) → Call
  remove : (player_id item_key : Key) → (quantity : ℤ) → Call

abbrev perform : Call → Db → Db
perform (get p) db = (get_inventory p db).1
perform (add p input) db = (add_item p input db).1
perform (remove p key quantity) db = (remove_item p key quantity db).1

pub use_items : List Call → Db → Db
use_items [] db = db
use_items (call ∷ calls) db = use_items calls (perform call db)

perform-IsValid : (call : Call) (db : Db) → IsValid db → IsValid (perform call db)
perform-IsValid (get p) = get_inventory-IsValid p
perform-IsValid (add p input) = add_item-IsValid p input
perform-IsValid (remove p key quantity) = remove_item-IsValid p key quantity

-- From a database whose inventories stay within their capacity, with positive quantities and
-- distinct keys, any sequence of reads, additions and removals leads to such a database.
use_items-IsValid : (calls : List Call) (db : Db) → IsValid db → IsValid (use_items calls db)
unfolding use_items
use_items-IsValid [] db v = v
use_items-IsValid (call ∷ calls) db v =
    use_items-IsValid calls (perform call db) (perform-IsValid call db v)
