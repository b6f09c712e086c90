-- ===== src/Game/Vec3.antt =====
-- src/domain/value-objects/vec3.ts, with `WORLD_BOUNDS` of src/shared/constants/game.ts.
pub mod Clamp
use realtime_game_server.Base.{◌≡◌, Bool, true}
use realtime_game_server.Game.Double.{Double, ◌⊕◌, ◌⊖◌, ◌⊗◌, num, math_min, math_max}

pub record Vec3 (W : Type 0) : Type 0 where
  pub x : W
  pub y : W
  pub z : W

pub record Bounds (W : Type 0) : Type 0 where
  pub min_x : W
  pub max_x : W
  pub min_y : W
  pub max_y : W
  pub min_z : W
  pub max_z : W

module _ {W : Type 0} ⦃d : Double W⦄ where
  unfoldable pub create_vec3 : W → W → W → Vec3 W
  create_vec3 x y z = record { x = x; y = y; z = z }

  unfoldable pub distance3 : Vec3 W → Vec3 W → W
  distance3 a b =
      let dx = a.x ⊖ b.x in
      let dy = a.y ⊖ b.y in let dz = a.z ⊖ b.z in d.sqrt (dx ⊗ dx ⊕ dy ⊗ dy ⊕ dz ⊗ dz)

  unfoldable pub magnitude : Vec3 W → W
  magnitude v = d.sqrt (v.x ⊗ v.x ⊕ v.y ⊗ v.y ⊕ v.z ⊗ v.z)

  unfoldable pub clamp_vec3 : Vec3 W → Bounds W → Vec3 W
  clamp_vec3 v b = record {
    x = math_min b.max_x (math_max b.min_x v.x);
    y = math_min b.max_y (math_max b.min_y v.y);
    z = math_min b.max_z (math_max b.min_z v.z);
  }

  unfoldable pub world_bounds : Bounds W
  world_bounds = record {
    min_x = d.neg (num 100);
    max_x = num 100;
    min_y = num 0;
    max_y = num 50;
    min_z = d.neg (num 100);
    max_z = num 100;
  }

  abbrev pub IsBetween : W → W → W → Type 0
  IsBetween lo hi a = (d.le lo a ≡ true) × (d.le a hi ≡ true)

  -- every coordinate is a number within its two bounds
  pub record InBounds (b : Bounds W) (v : Vec3 W) : Type 0 where
    pub at_x : IsBetween b.min_x b.max_x v.x
    pub at_y : IsBetween b.min_y b.max_y v.y
    pub at_z : IsBetween b.min_z b.max_z v.z

  pub record IsNumber (v : Vec3 W) : Type 0 where
    pub at_x : d.le v.x v.x ≡ true
    pub at_y : d.le v.y v.y ≡ true
    pub at_z : d.le v.z v.z ≡ true

  pub record AreBounds (b : Bounds W) : Type 0 where
    pub at_x : d.le b.min_x b.max_x ≡ true
    pub at_y : d.le b.min_y b.max_y ≡ true
    pub at_z : d.le b.min_z b.max_z ≡ true
