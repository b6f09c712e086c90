-- ===== src/Auth/Tokens/Duration.antt =====
-- `parseDurationToMs` of src/infrastructure/auth/token-service.ts, on the code units of its text;
-- `none` stands for the throw. The digits are read as a whole number, which `Number` then rounds as it
-- rounds a literal.
pub mod Decimal
use realtime_game_server.Game.Double.{Double, num, ◌⊗◌}
use realtime_game_server.Base.{
  ℕ, ◌+◌, ◌-◌, ◌*◌, Bool, ◌&&◌, Option, none, some, List, [], ◌∷◌, leb, ◌==◌, if◌then◌else◌,
}

abbrev pub is_digit : ℕ → Bool
is_digit c = leb b'0' c && leb c b'9'

-- the milliseconds of a unit, if the character is one
unfoldable pub multiplier : ℕ → Option ℕ
multiplier c =
    if c == b's'
    then some 1000
    else if c == b'm'
    then some 60_000
    else if c == b'h'
    then some 3_600_000
    else if c == b'd'
    then some 86_400_000
    else none

module _ {W : Type 0} ⦃d : Double W⦄ where
  abbrev scaled : ℕ → Option ℕ → Option W
  scaled value none = none
  scaled value (some m) = some (num value ⊗ num m)

  -- the rest of the match of /^(\d+)([smhd])$/, with the value of the digits so far
  unfoldable pub parse_rest : ℕ → List ℕ → Option W
  unfolding multiplier
  parse_rest value [] = none
  parse_rest value (c ∷ []) = scaled value (multiplier c)
  parse_rest value (c ∷ e ∷ cs) =
      let rest = parse_rest (value * 10 + (c - b'0')) (e ∷ cs) in if is_digit c then rest else none

  unfoldable pub parse_duration_to_ms : List ℕ → Option W
  unfolding parse_rest
  parse_duration_to_ms [] = none
  parse_duration_to_ms (c ∷ cs) = if is_digit c then parse_rest (c - b'0') cs else none
