-- ===== src/Game/AntiCheat/Movement.antt =====
-- Accepted and rejected movements.
use realtime_game_server.Base.{◌<◌, ◌≡◌, true, false, arith}
use realtime_game_server.Game.Double.{Double, IsOrdered, ◌⊕◌, ◌⊗◌, num}
use realtime_game_server.Game.Vec3.{Vec3, magnitude, world_bounds, InBounds, IsNumber, AreBounds}
use realtime_game_server.Game.Vec3.Clamp.{clamp_vec3-InBounds}
use realtime_game_server.Game.AntiCheat.{
  RuntimePlayerState, MovementInput, next_velocity, proposed_position, teleport_distance,
  validate_and_apply_movement,
}

module _ {W : Type 0} ⦃d : Double W⦄ (max_speed : W) where
  -- The step `r` that the input makes, and the position that it proposes.
  abbrev proposed : RuntimePlayerState W → MovementInput W → Vec3 W
  proposed s i = proposed_position s.position (next_velocity max_speed i.move) i.dt

  -- A rejected input leaves the player as it was.
  pub rejected_keeps :
      (s : RuntimePlayerState W) (i : MovementInput W)
      → (validate_and_apply_movement max_speed s i).accepted ≡ false
      → (validate_and_apply_movement max_speed s i).state ≡ s
  unfolding validate_and_apply_movement
  rejected_keeps s i h = ground arith

  -- An accepted input is newer than the last one, and none of the comparisons that reject it holds.
  pub accepted_limits :
      (s : RuntimePlayerState W) (i : MovementInput W)
      → (validate_and_apply_movement max_speed s i).accepted ≡ true
      → (s.last_processed_input_seq < i.seq)
        × (d.le i.dt (num 0) ≡ false)
        × (d.lt (d.decimal 25 2) i.dt ≡ false)
        × (d.lt (d.decimal 105 2) (magnitude i.move) ≡ false)
        × (d.lt
              (max_speed ⊕ d.decimal 1 2)
              (magnitude (validate_and_apply_movement max_speed s i).state.velocity)
            ≡ false)
        × (d.lt (max_speed ⊗ i.dt ⊗ d.decimal 115 2) (teleport_distance (proposed s i) s.position)
            ≡ false)
  unfolding validate_and_apply_movement
  accepted_limits s i h = ground arith

  pub accepted_seq :
      (s : RuntimePlayerState W) (i : MovementInput W)
      → (validate_and_apply_movement max_speed s i).accepted ≡ true
      → (validate_and_apply_movement max_speed s i).state.last_processed_input_seq ≡ i.seq
  unfolding validate_and_apply_movement
  accepted_seq s i h = ground arith

  -- What a movement never touches.
  pub movement_frame :
      (s : RuntimePlayerState W) (i : MovementInput W)
      → let s' = (validate_and_apply_movement max_speed s i).state in
        (s'.id ≡ s.id)
        × (s'.username ≡ s.username)
        × (s'.hp ≡ s.hp)
        × (s'.connected ≡ s.connected)
        × (s'.ping ≡ s.ping)
        × (s'.last_heartbeat_at ≡ s.last_heartbeat_at)
  unfolding validate_and_apply_movement
  movement_frame s i = ground arith

  -- A player inside the world stays inside it, whatever input arrives, where the order of the
  -- numbers is total away from NaN, the bounds of the world are in order and the proposed position
  -- is made of numbers.
  pub movement-InBounds :
      (o : IsOrdered W) (s : RuntimePlayerState W) (i : MovementInput W)
      → AreBounds (world_bounds {W = W})
      → IsNumber (proposed s i)
      → InBounds world_bounds s.position
      → InBounds world_bounds (validate_and_apply_movement max_speed s i).state.position
  unfolding validate_and_apply_movement
  movement-InBounds o s i b n h =
      ground (arith, clamp_vec3-InBounds o (proposed s i) world_bounds n b)
