-- ===== src/Game/Session.antt =====
-- src/infrastructure/game/game-session.ts: one session, its players and its tick. The interval
-- timer is the environment's: it calls `step`. `now` is what `Date.now()` returns in the call.
pub mod Drain
pub mod Loop
pub mod Current
pub mod Invariant
pub mod TickInvariant
pub mod Replica
pub mod Reach
pub mod Removed
pub mod Advance
pub mod Late
use realtime_game_server.Base.{
  ℕ, suc, ◌+◌, ◌-◌, ◌%◌, max, Bool, true, false, ◌&&◌, ◌||◌, Option, none, some, List, [], ◌∷◌,
  ◌++◌, map, Key, ltb, leb, ◌==◌, is_some, get_or, if◌then◌else◌, length, tail,
}
use realtime_game_server.Base.Dict.{Dict, lookup, insert, erase, values}
use realtime_game_server.Game.Double.{Double}
use realtime_game_server.Game.AntiCheat.{
  RuntimePlayerState, MovementInput, create_runtime_player, validate_and_apply_movement,
}
use realtime_game_server.Game.Snapshot.{
  PlayerSnapshot, Delta, to_player_snapshot, set_all, compute_delta,
}
use realtime_game_server.Game.Snapshot.Client.{erase_all}
use realtime_game_server.Game.Protocol.{ServerMessage}

-- the settings of src/shared/config/env.ts that the game reads
pub record Settings (W : Type 0) : Type 0 where
  pub game_tick_rate : ℕ
  pub max_move_speed : W
  pub heartbeat_timeout_ms : ℕ

pub record GameSession (W : Type 0) : Type 0 where
  pub room_id : Key
  pub players : Dict (RuntimePlayerState W)
  pub previous_snapshots : Dict (PlayerSnapshot W)
  pub tick : ℕ
  -- the rate of the running interval, `none` for `null`
  pub timer : Option ℕ
  pub pending_inputs : Dict (List (MovementInput W))

-- what the session emits
pub data Event (W : Type 0) : Type 0 where
  snapshot : ServerMessage W → Event W
  player_disconnected : Key → Event W

abbrev pub full_snapshot_every : ℕ
full_snapshot_every = 20

abbrev pub queue_limit : ℕ
queue_limit = 40

module _ {W : Type 0} where
  unfoldable pub create : Key → GameSession W
  create room_id = record {
    room_id = room_id;
    players = [];
    previous_snapshots = [];
    tick = 0;
    timer = none;
    pending_inputs = [];
  }

  unfoldable pub start : Settings W → GameSession W → GameSession W
  start env s = if is_some s.timer then s else record s { timer = some env.game_tick_rate }

  unfoldable pub stop : GameSession W → GameSession W
  stop s = if is_some s.timer then record s { timer = none } else s

  unfoldable pub remove_player : Key → GameSession W → GameSession W
  remove_player id s = record s {
    players = erase id s.players;
    pending_inputs = erase id s.pending_inputs;
    previous_snapshots = erase id s.previous_snapshots;
  }

  -- replaces the object under `id`, which the source mutates in place
  abbrev pub update_player :
      (RuntimePlayerState W → RuntimePlayerState W) → Key → GameSession W → GameSession W
  update_player f id s = elim (lookup id s.players) [
    | none ↦ s
    | some player ↦ record s { players = insert id (f player) s.players }
  ]

  unfoldable pub mark_disconnected : Key → GameSession W → GameSession W × List (Event W)
  mark_disconnected id s = (
    update_player (λ player. record player { connected = false }) id s,
    if is_some (lookup id s.players) then player_disconnected id ∷ [] else [],
  )

  unfoldable pub enqueue_input : Key → MovementInput W → GameSession W → Bool × GameSession W
  enqueue_input id input s = elim (lookup id s.pending_inputs) [
    | none ↦ (false, s)
    | some queue ↦ (
      true,
      record s {
        pending_inputs =
            insert id ((if leb queue_limit (length queue) then tail queue else queue) ++ input ∷ [])
              s.pending_inputs;
      },
    )
  ]

  unfoldable pub heartbeat : ℕ → Key → GameSession W → GameSession W
  heartbeat now =
      update_player (λ player. record player { last_heartbeat_at = now; connected = true })

  -- the gateway hands a whole number that is not negative, which `Math.round` leaves alone
  unfoldable pub update_ping : ℕ → Key → GameSession W → GameSession W
  update_ping ping = update_player (λ player. record player { ping = max 0 ping })

  unfoldable pub current_snapshots : GameSession W → List (PlayerSnapshot W)
  current_snapshots s = map to_player_snapshot (values s.players)

  unfoldable pub build_full_snapshot : ℕ → GameSession W → ServerMessage W
  build_full_snapshot now s =
      ServerMessage.snapshot
        (record { tick = s.tick; server_time = now; players = current_snapshots s })

module _ {W : Type 0} ⦃d : Double W⦄ where
  unfoldable pub add_player : ℕ → Key → Key → GameSession W → RuntimePlayerState W × GameSession W
  add_player now id username s = elim (lookup id s.players) [
    | some existing ↦
        let existing' = record existing { connected = true; last_heartbeat_at = now } in
        (existing', record s { players = insert id existing' s.players })
    | none ↦
        let state = create_runtime_player now id username (length s.players) in
        (
          state,
          record s {
            players = insert id state s.players;
            pending_inputs = insert id [] s.pending_inputs;
          },
        )
  ]

  -- the inner loop of `step`: each input is checked against `state`, the value that the outer loop
  -- bound, and an accepted one writes its result to the map
  unfoldable pub drain :
      W
      → Key
      → RuntimePlayerState W
      → List (MovementInput W)
      → Dict (RuntimePlayerState W)
      → Dict (RuntimePlayerState W)
  drain max_speed id state [] players = players
  drain max_speed id state (input ∷ queue) players =
      let result = validate_and_apply_movement max_speed state input in
      drain max_speed id state queue
        (if result.accepted then insert id result.state players else players)

  -- the heartbeat check: the player, and whether it is reported as disconnected
  unfoldable pub late : Settings W → ℕ → RuntimePlayerState W → Bool
  late env now state =
      ltb env.heartbeat_timeout_ms (now - state.last_heartbeat_at) && state.connected

  unfoldable pub check_heartbeat : Settings W → ℕ → RuntimePlayerState W → RuntimePlayerState W
  check_heartbeat env now state =
      if late env now state then record state { connected = false } else state

  -- one round of the loop over the players
  unfoldable pub visit : Settings W → ℕ → Key → RuntimePlayerState W → GameSession W → GameSession W
  visit env now id state s =
      let state' = check_heartbeat env now state in
      record s {
        players =
            drain env.max_move_speed id state' (get_or (lookup id s.pending_inputs) [])
              (insert id state' s.players);
        pending_inputs =
            if is_some (lookup id s.pending_inputs)
            then insert id [] s.pending_inputs
            else s.pending_inputs;
      }

  -- The loop over the players. A round writes only under its own key, so the entries that it goes
  -- through are those that the map held at its start.
  unfoldable pub visit_all :
      Settings W → ℕ → Dict (RuntimePlayerState W) → GameSession W → GameSession W
  visit_all env now [] s = s
  visit_all env now ((id, state) ∷ entries) s = visit_all env now entries (visit env now id state s)

  unfoldable pub disconnects : Settings W → ℕ → Dict (RuntimePlayerState W) → List (Event W)
  disconnects env now [] = []
  disconnects env now ((id, state) ∷ entries) =
      (if late env now state then player_disconnected id ∷ [] else [])
      ++ disconnects env now entries

  unfoldable pub should_full : GameSession W → Bool
  should_full s = s.tick % full_snapshot_every == 0 || length s.previous_snapshots == 0

  -- nothing is sent where nothing has changed
  unfoldable pub delta_events : ℕ → ℕ → Delta W → List (Event W)
  delta_events now tick difference =
      if length difference.changes == 0 && length difference.removed == 0
      then []
      else snapshot (
          ServerMessage.delta (record {
            tick = tick;
            server_time = now;
            base_tick = tick - 1;
            changes = difference.changes;
            removed = difference.removed;
          }))
        ∷ []

  -- the rest of `step`: the snapshots that are kept, and the message
  unfoldable pub publish : ℕ → GameSession W → GameSession W × List (Event W)
  publish now s =
      let snapshots = current_snapshots s in
      let difference = compute_delta s.previous_snapshots snapshots in
      if should_full s
      then (
        record s { previous_snapshots = set_all snapshots [] },
        snapshot (
              ServerMessage.snapshot
                (record { tick = s.tick; server_time = now; players = snapshots }))
            ∷ [],
      )
      else (
        record s {
          previous_snapshots =
              set_all snapshots (erase_all difference.removed s.previous_snapshots);
        },
        delta_events now s.tick difference,
      )

  unfoldable pub step : Settings W → ℕ → GameSession W → GameSession W × List (Event W)
  step env now s =
      let visited = visit_all env now s.players (record s { tick = s.tick + 1 }) in
      let (s', message) = publish now visited in (s', disconnects env now s.players ++ message)
