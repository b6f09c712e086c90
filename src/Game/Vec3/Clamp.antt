-- ===== src/Game/Vec3/Clamp.antt =====
-- Clamping a vector.
use realtime_game_server.Base.{◌≡◌, true, arith}
use realtime_game_server.Game.Double.{Double, IsOrdered, math_min, math_max}
use realtime_game_server.Game.Vec3.{
  Vec3, Bounds, clamp_vec3, IsBetween, InBounds, IsNumber, AreBounds,
}

module _ {W : Type 0} ⦃d : Double W⦄ (o : IsOrdered W) where
  clamp_IsBetween :
      (lo hi a : W)
      → d.le lo hi ≡ true
      → d.le a a ≡ true
      → IsBetween lo hi (math_min hi (math_max lo a))
  clamp_IsBetween lo hi a h n = ground (
    arith,
    o.refl_of_le lo hi h,
    o.le_total lo a,
    o.le_total hi a,
    o.le_total lo hi,
    o.lt-eq-not-le a lo,
    o.lt-eq-not-le hi a,
    o.lt-eq-not-le hi lo,
  )

  -- A clamped vector of numbers lies within the bounds.
  pub clamp_vec3-InBounds :
      (v : Vec3 W) (b : Bounds W) → IsNumber v → AreBounds b → InBounds b (clamp_vec3 v b)
  unfolding clamp_vec3
  clamp_vec3-InBounds v b n h = record {
    at_x = clamp_IsBetween b.min_x b.max_x v.x h.at_x n.at_x;
    at_y = clamp_IsBetween b.min_y b.max_y v.y h.at_y n.at_y;
    at_z = clamp_IsBetween b.min_z b.max_z v.z h.at_z n.at_z;
  }
