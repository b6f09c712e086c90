-- ===== src/Api/Register.antt =====
-- What a registration writes.
use realtime_game_server.Base.{ℕ, ◌≡◌, none, some, Key, arith, Option-cases, inl, inr, []}
use realtime_game_server.Base.Dict.{lookup, lookup-insert}
use realtime_game_server.Base.Action.Keeps.{Keeps, keeps_rules}
use realtime_game_server.Auth.Store as Store
use realtime_game_server.Auth.Store.{Db, create_user, create_player, create_token, find_player}
use realtime_game_server.Auth.Tokens.{Crypto}
use realtime_game_server.Auth.Service as Service
use realtime_game_server.Auth.Service.{
  Call, Strings, RegisterInput, issue_tokens, default_starting_coins,
}
use realtime_game_server.Economy.Accounts.{opened-AreAccounts}
use realtime_game_server.Inventory.{new_inventory, default_inventory_capacity}
use realtime_game_server.Inventory.Methods.{write_items-IsValid}
use realtime_game_server.Player.Experience as Experience
use realtime_game_server.Api.State.{World, Config, Draws, on_auth}
use realtime_game_server.Api.Routes.{add_player_rows, register_user}
use realtime_game_server.Api.Invariant.{IsServer, on_auth-IsServer}

-- a player of the user has the id and the coins of a new one
abbrev IsNew : Key → Key → Db → Type 0
IsNew user_id player_id db =
    (p : Store.Player)
    → find_player user_id db ≡ some p
    → (p.id ≡ player_id) × (p.coins ≡ default_starting_coins)

module _ (user_id player_id : Key) where
  create_user-Keeps : (i e n h : Key) → Keeps (IsNew user_id player_id) (create_user i e n h)
  unfolding create_user find_player
  create_user-Keeps i e n h = record { at = λ db v p found. ground (arith, v p) }

  create_token-Keeps : (u th : Key) (e : ℕ) → Keeps (IsNew user_id player_id) (create_token u th e)
  unfolding create_token find_player
  create_token-Keeps u th e = record { at = λ db v p found. ground (arith, v p) }

  create_player-Keeps :
      (u n : Key)
      → Keeps (IsNew user_id player_id) (create_player player_id u n default_starting_coins)
  unfolding create_player find_player
  create_player-Keeps u n = record {
    at = λ db v p found.
        let row : Store.Player = record {
          id = player_id;
          user_id = u;
          username = n;
          coins = default_starting_coins;
          experience = 0;
          level = 1;
        } in
        ground (arith, v p, lookup-insert u user_id row db.players);
  }

  issue_tokens-Keeps :
      (c : Crypto) (call : Call) (u p n : Key)
      → Keeps (IsNew user_id player_id) (issue_tokens c call u p n)
  unfolding issue_tokens
  issue_tokens-Keeps c call u p n = search (keeps_rules, create_token-Keeps) depth 20

  register-Keeps :
      (c : Crypto) (call : Call) (text : Strings) (h : Key) (input : RegisterInput)
      → Keeps (IsNew user_id player_id) (Service.register c call text user_id player_id h input)
  unfolding Service.register
  register-Keeps c call text h input =
      search (keeps_rules, create_user-Keeps, create_player-Keeps, issue_tokens-Keeps) depth 20

module _ {W : Type 0} where
  add_player_rows-IsServer :
      (p : Store.Player) (w : World W)
      → p.coins ≡ default_starting_coins
      → lookup p.id w.economy.coins ≡ none
      → IsServer w
      → IsServer (add_player_rows p w)
  add_player_rows-IsServer p w coins new v = record {
    connections = v.connections;
    sessions = v.sessions;
    lobby = v.lobby;
    accounts = rw coins (opened-AreAccounts p.id w.economy new v.accounts);
    profiles = Experience.create_profile-IsValid p.id p.user_id p.username w.players v.profiles;
    inventories =
        write_items-IsValid p.id (new_inventory p.id default_inventory_capacity) []
          w.players.inventories (omega arith) tt v.inventories;
  }

  -- With ids that nobody has.
  pub register_user-IsServer :
      (config : Config W) (draws : Draws) (input : RegisterInput) (w : World W)
      → find_player draws.user_id w.auth ≡ none
      → lookup draws.player_id w.economy.coins ≡ none
      → IsServer w
      → IsServer (register_user config draws input w).1
  unfolding register_user
  register_user-IsServer config draws input w stranger new v =
      let m =
        Service.register config.crypto draws.call config.strings draws.user_id draws.player_id
          draws.password_hash input in
      let db = (m w.auth).1 in
      let plain = on_auth-IsServer w v m in
      let created =
        (register-Keeps draws.user_id draws.player_id config.crypto draws.call config.strings
            draws.password_hash input).at
          w.auth (λ p e. absurd (ground arith)) in
      elim (Option-cases (find_player draws.user_id db)) [
        | inl absent ↦ rw (absent, register_user) plain
        | inr (p, found) ↦
            let (own, coins) = created p found in
            rw (found, stranger, register_user)
              (add_player_rows-IsServer p (on_auth m w).1 coins (rw own new) plain)
      ]
