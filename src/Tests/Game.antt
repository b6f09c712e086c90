-- ===== src/Tests/Game.antt =====
-- The game theorems at a session with two players.
use realtime_game_server.Base.{
  any, ℕ, ◌+◌, ◌≡◌, refl, true, false, none, some, List, [], ◌∷◌, Key, arith, if◌then◌else◌,
  is_some,
}
use realtime_game_server.Base.Int.{ℤ, pos, ◌+ℤ◌, ◌-ℤ◌}
use realtime_game_server.Base.Dict.{lookup, contains, erase, insert}
use realtime_game_server.Game.Vec3.{
  Vec3, create_vec3, InBounds, IsNumber, AreBounds, world_bounds, magnitude,
}
use realtime_game_server.Game.AntiCheat.{
  RuntimePlayerState, MovementInput, validate_and_apply_movement, proposed_position, next_velocity,
  teleport_distance, create_runtime_player,
}
use realtime_game_server.Game.AntiCheat.Movement.{movement-InBounds}
use realtime_game_server.Game.Snapshot.{PlayerSnapshot, to_player_snapshot, set_all, compute_delta}
use realtime_game_server.Game.Snapshot.Client.{apply_delta, SameView, IsTracked}
use realtime_game_server.Game.Snapshot.RoundTrip.{apply_delta-compute_delta}
use realtime_game_server.Game.Session
use realtime_game_server.Game.Session.Late.{is_report, is_connected, step-late}
use realtime_game_server.Game.Session.{
  Settings, GameSession, step, visit_all, current_snapshots, remove_player, should_full, drain,
  visit, check_heartbeat, late,
}
use realtime_game_server.Game.Session.Drain.{drain_pair}
use realtime_game_server.Game.Session.Removed.{removed_stays}
use realtime_game_server.Game.Session.Advance.{step-players}
use realtime_game_server.Game.Session.Loop.{advanced}
use realtime_game_server.Game.Session.Invariant.{IsValid}
use realtime_game_server.Game.Session.Reach.{Call, run, run-IsValid}
use realtime_game_server.Game.Session.Replica.{Shows, receive_all, step-Shows}
use realtime_game_server.Tests.Fixed.{thousandths, thousandths-IsOrdered}

abbrev settings : Settings ℤ
settings = record { game_tick_rate = 20; max_move_speed = pos 12000; heartbeat_timeout_ms = 10_000 }

abbrev forward : ℕ → MovementInput ℤ
forward seq = record {
  seq = seq;
  dt = pos 50;
  move = record { x = pos 1000; y = pos 0; z = pos 0 };
  look = record { x = pos 0; y = pos 0; z = pos 0 };
}

-- two players, a first tick, and an input that waits for the second
abbrev calls : List (Call ℤ)
calls =
    Call.start
    ∷ Call.add_player 100 1 11
    ∷ Call.add_player 100 2 12
    ∷ Call.step 150
    ∷ Call.enqueue_input 1 (forward 1)
    ∷ []

abbrev game : GameSession ℤ
game = run settings calls (Session.create 7)

run-IsValid_example : IsValid (run settings calls (Session.create 7))
run-IsValid_example = run-IsValid settings 7 calls

step-Shows_example :
    let (s', events) = step settings 200 game in
    Shows (receive_all events game.previous_snapshots) s'
    × SameView (receive_all events game.previous_snapshots) s'.previous_snapshots
step-Shows_example =
    step-Shows thousandths-IsOrdered settings 200 game game.previous_snapshots
      (run-IsValid settings 7 calls) (λ k. refl)

abbrev player : RuntimePlayerState ℤ
player = create_runtime_player 100 1 11 0

accepts : (validate_and_apply_movement (pos 12000) player (forward 1)).accepted ≡ true
unfolding create_runtime_player validate_and_apply_movement magnitude ◌+ℤ◌ next_velocity
    teleport_distance ◌-ℤ◌ proposed_position create_vec3
accepts = refl

accepts_second : (validate_and_apply_movement (pos 12000) player (forward 2)).accepted ≡ true
unfolding create_runtime_player validate_and_apply_movement magnitude ◌+ℤ◌ next_velocity
    teleport_distance ◌-ℤ◌ proposed_position create_vec3
accepts_second = refl

bounds : AreBounds (world_bounds {W = ℤ})
unfolding world_bounds ◌-ℤ◌
bounds = record { at_x = refl; at_y = refl; at_z = refl }

proposal_numbers :
    IsNumber
      (proposed_position player.position (next_velocity (pos 12000) (forward 1).move) (pos 50))
unfolding create_runtime_player proposed_position next_velocity magnitude create_vec3 ◌+ℤ◌ ◌-ℤ◌
proposal_numbers = record { at_x = refl; at_y = refl; at_z = refl }

player_inside : InBounds world_bounds player.position
unfolding create_runtime_player create_vec3 world_bounds ◌+ℤ◌ ◌-ℤ◌
player_inside = record { at_x = (refl, refl); at_y = (refl, refl); at_z = (refl, refl) }

movement-InBounds_example :
    InBounds world_bounds
      (validate_and_apply_movement (pos 12000) player (forward 1)).state.position
movement-InBounds_example =
    movement-InBounds (pos 12000) thousandths-IsOrdered player (forward 1) bounds proposal_numbers
      player_inside

found : lookup 1 ((1, player) ∷ []) ≡ some player
unfolding lookup
found = refl

abbrev before : PlayerSnapshot ℤ
before = to_player_snapshot player

abbrev after : PlayerSnapshot ℤ
after = record before { hp = 90 }

after-IsTracked : IsTracked ((1, before) ∷ []) after
unfolding lookup to_player_snapshot create_runtime_player
after-IsTracked q e = ground arith

drain_pair_example :
    lookup 1 (drain (pos 12000) 1 player (forward 1 ∷ forward 2 ∷ []) ((1, player) ∷ []))
    ≡ some (validate_and_apply_movement (pos 12000) player (forward 2)).state
drain_pair_example =
    drain_pair (pos 12000) 1 player (forward 1) (forward 2) ((1, player) ∷ []) found accepts
      accepts_second

apply_delta-compute_delta_example :
    SameView
      (apply_delta (compute_delta ((1, before) ∷ []) (after ∷ [])) ((1, before) ∷ []))
      (set_all (after ∷ []) [])
apply_delta-compute_delta_example =
    apply_delta-compute_delta thousandths-IsOrdered ((1, before) ∷ []) ((1, before) ∷ [])
      (after ∷ []) (λ k. refl) (tt, tt) (after-IsTracked, tt)

step-players_example :
    (lookup 1 (step settings 200 game).0.players
      ≡ advanced settings 200 (lookup 1 game.players) (lookup 1 game.pending_inputs) none)
    × (lookup 1 (step settings 200 game).0.pending_inputs
        ≡ (if is_some (lookup 1 game.players) then some [] else none))
step-players_example = step-players settings 200 game 1 (run-IsValid settings 7 calls)

abbrev origin : Vec3 ℤ
origin = record { x = pos 0; y = pos 0; z = pos 0 }

abbrev still : Key → RuntimePlayerState ℤ
still id = record {
  id = id;
  username = 10;
  position = origin;
  rotation = origin;
  velocity = origin;
  hp = 100;
  connected = true;
  ping = 0;
  last_processed_input_seq = 0;
  last_heartbeat_at = 100;
}

-- a session with two players at its first tick
abbrev both : GameSession ℤ
both = record {
  room_id = 7;
  players = (1, still 1) ∷ (2, still 2) ∷ [];
  previous_snapshots = (1, to_player_snapshot (still 1)) ∷ (2, to_player_snapshot (still 2)) ∷ [];
  tick = 1;
  timer = none;
  pending_inputs = (1, []) ∷ (2, []) ∷ [];
}

both-IsValid : IsValid both
unfolding lookup to_player_snapshot
both-IsValid = record {
  players_map = (refl, (refl, tt));
  keyed = λ k p e. ground arith;
  queued = λ k. ground arith;
  bounded = λ k q e. ground arith;
  tracked = λ k p q e f. ground arith;
  known = λ k e. ground arith;
}

abbrev left : GameSession ℤ
left = remove_player 2 both

partial :
    should_full (visit_all settings 200 left.players (record left { tick = left.tick + 1 })) ≡ false
unfolding should_full visit_all remove_player erase visit drain check_heartbeat late lookup insert
partial = refl

seen : contains 2 both.previous_snapshots ≡ true
unfolding lookup
seen = refl

removed_stays_example :
    contains 2 (receive_all (step settings 200 left).1 both.previous_snapshots) ≡ true
removed_stays_example =
    removed_stays settings 200 2 both both.previous_snapshots both-IsValid seen partial

present : lookup 1 both.players ≡ some (still 1)
unfolding lookup
present = refl

step-late_example :
    (is_connected (lookup 1 (step settings 10_200 both).0.players) ≡ false)
    × (any (is_report 1) (step settings 10_200 both).1 ≡ true)
step-late_example = step-late settings 10_200 1 (still 1) both both-IsValid present
