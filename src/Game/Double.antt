-- ===== src/Game/Double.antt =====
-- What the game code does with a JavaScript `number` that may be fractional. The type and its
-- operations are a parameter; -0 and 0 are taken to be one value.
use realtime_game_server.Base.{ℕ, ◌≡◌, Bool, true, not, ◌⊎◌, if◌then◌else◌}

pub record Double (W : Type 0) : Type 0 where
  -- the literal m * 10^-k
  pub decimal : ℕ → ℕ → W
  pub neg : W → W
  pub add : W → W → W
  pub sub : W → W → W
  pub mul : W → W → W
  pub div : W → W → W
  pub sqrt : W → W
  pub cos : W → W
  pub sin : W → W
  pub pi : W
  -- `a < b`, `a <= b` and `a === b`
  pub lt : W → W → Bool
  pub le : W → W → Bool
  pub eq : W → W → Bool

module _ {W : Type 0} ⦃d : Double W⦄ where
  infixl 65 ◌⊕◌ ◌⊖◌
  infixl 70 ◌⊗◌
  abbrev pub ◌⊕◌ : W → W → W
  a ⊕ b = d.add a b

  abbrev pub ◌⊖◌ : W → W → W
  a ⊖ b = d.sub a b

  abbrev pub ◌⊗◌ : W → W → W
  a ⊗ b = d.mul a b

  abbrev pub num : ℕ → W
  num n = d.decimal n 0

  abbrev pub is_nan : W → Bool
  is_nan a = not (d.le a a)

  -- `Math.min` and `Math.max` return NaN if either argument is NaN
  abbrev pub math_min : W → W → W
  math_min a b = if is_nan a then a else if is_nan b then b else if d.lt a b then a else b

  abbrev pub math_max : W → W → W
  math_max a b = if is_nan a then a else if is_nan b then b else if d.lt b a then a else b

-- The order of the numbers is total away from NaN, the value that is not `<=` itself.
pub record IsOrdered (W : Type 0) ⦃d : Double W⦄ : Type 0 where
  pub refl_of_le : (x y : W) → d.le x y ≡ true → (d.le x x ≡ true) × (d.le y y ≡ true)
  pub le_total :
      (x y : W) → d.le x x ≡ true → d.le y y ≡ true → (d.le x y ≡ true) ⊎ (d.le y x ≡ true)
  pub lt-eq-not-le : (x y : W) → d.le x x ≡ true → d.le y y ≡ true → d.lt x y ≡ not (d.le y x)
  pub eq_sound : (x y : W) → d.eq x y ≡ true → x ≡ y
