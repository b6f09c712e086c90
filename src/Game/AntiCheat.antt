-- ===== src/Game/AntiCheat.antt =====
-- src/infrastructure/game/anti-cheat.ts. `env.MAX_MOVE_SPEED`, the default of `maxSpeed`, is a
-- parameter; sequence numbers and times are whole numbers (the protocol's schema says so).
pub mod Movement
use realtime_game_server.Base.{
  ℕ, Bool, true, false, ◌||◌, Option, none, some, Key, leb, if◌then◌else◌,
}
use realtime_game_server.Game.Double.{Double, ◌⊕◌, ◌⊖◌, ◌⊗◌, num, math_min}
use realtime_game_server.Game.Vec3.{Vec3, create_vec3, magnitude, clamp_vec3, world_bounds}

pub record RuntimePlayerState (W : Type 0) : Type 0 where
  pub id : Key
  pub username : Key
  pub position : Vec3 W
  pub rotation : Vec3 W
  pub velocity : Vec3 W
  pub hp : ℕ
  pub connected : Bool
  pub ping : ℕ
  pub last_processed_input_seq : ℕ
  pub last_heartbeat_at : ℕ

pub record MovementInput (W : Type 0) : Type 0 where
  pub seq : ℕ
  pub dt : W
  pub move : Vec3 W
  pub look : Vec3 W

pub data Reason : Type 0 where
  stale_input invalid_dt invalid_move_vector speed_cheat position_cheat : Reason

-- `reason` is `none` where the source leaves it out
pub record ValidationResult (W : Type 0) : Type 0 where
  pub accepted : Bool
  pub reason : Option Reason
  pub state : RuntimePlayerState W

abbrev pub default_player_hp : ℕ
default_player_hp = 100

abbrev rejected : {W : Type 0} → Reason → RuntimePlayerState W → ValidationResult W
rejected r state = record { accepted = false; reason = some r; state = state }

module _ {W : Type 0} ⦃d : Double W⦄ where
  -- `now` is `Date.now()`
  unfoldable pub create_runtime_player : ℕ → Key → Key → ℕ → RuntimePlayerState W
  create_runtime_player now id username spawn_index =
      let angle = d.div (num spawn_index ⊗ d.pi ⊗ num 2) (num 8) in
      record {
        id = id;
        username = username;
        position = create_vec3 (d.cos angle ⊗ num 5) (num 0) (d.sin angle ⊗ num 5);
        rotation = create_vec3 (num 0) angle (num 0);
        velocity = create_vec3 (num 0) (num 0) (num 0);
        hp = default_player_hp;
        connected = true;
        ping = 0;
        last_processed_input_seq = 0;
        last_heartbeat_at = now;
      }

  unfoldable pub next_velocity : W → Vec3 W → Vec3 W
  next_velocity max_speed move =
      let speed = math_min (num 1) (magnitude move) ⊗ max_speed in
      record { x = move.x ⊗ speed; y = move.y ⊗ speed; z = move.z ⊗ speed }

  unfoldable pub proposed_position : Vec3 W → Vec3 W → W → Vec3 W
  proposed_position position velocity dt = record {
    x = position.x ⊕ velocity.x ⊗ dt;
    y = position.y ⊕ velocity.y ⊗ dt;
    z = position.z ⊕ velocity.z ⊗ dt;
  }

  unfoldable pub teleport_distance : Vec3 W → Vec3 W → W
  teleport_distance proposed position = magnitude (record {
    x = proposed.x ⊖ position.x;
    y = proposed.y ⊖ position.y;
    z = proposed.z ⊖ position.z;
  })

  unfoldable pub validate_and_apply_movement :
      W → RuntimePlayerState W → MovementInput W → ValidationResult W
  validate_and_apply_movement max_speed state input =
      let velocity = next_velocity max_speed input.move in
      let proposed = proposed_position state.position velocity input.dt in
      let max_distance = max_speed ⊗ input.dt ⊗ d.decimal 115 2 in
      if leb input.seq state.last_processed_input_seq
      then rejected stale_input state
      else if d.le input.dt (num 0) || d.lt (d.decimal 25 2) input.dt
      then rejected invalid_dt state
      else if d.lt (d.decimal 105 2) (magnitude input.move)
      then rejected invalid_move_vector state
      else if d.lt (max_speed ⊕ d.decimal 1 2) (magnitude velocity)
      then rejected speed_cheat state
      else if d.lt max_distance (teleport_distance proposed state.position)
      then rejected position_cheat state
      else record {
        accepted = true;
        reason = none;
        state = record state {
          position = clamp_vec3 proposed world_bounds;
          velocity = velocity;
          rotation = create_vec3 input.look.x input.look.y input.look.z;
          last_processed_input_seq = input.seq;
        };
      }
