-- ===== src/Tests/Fixed.antt =====
-- Numbers for the tests: thousandths, with the operations cut to them.
use realtime_game_server.Base.{ℕ, ◌+◌, ◌*◌, ◌/◌, List, [], ◌∷◌, arith, leb, ◌==◌, if◌then◌else◌}
use realtime_game_server.Base.Int.{
  ℤ, pos, negsuc, pos_part, neg_part, ◌+ℤ◌, ◌-ℤ◌, ltb_ℤ, leb_ℤ, eqb_ℤ, eq_of_parts,
}
use realtime_game_server.Game.Double.{Double, IsOrdered}

abbrev magnitude_of : ℤ → ℕ
magnitude_of a = pos_part a + neg_part a

abbrev negated : ℤ → ℤ
negated a = pos 0 -ℤ a

-- `m` with the sign of the product of `a` and `b`
abbrev signed : ℤ → ℤ → ℕ → ℤ
signed (pos _) (pos _) m = pos m
signed (pos _) (negsuc _) m = negated (pos m)
signed (negsuc _) (pos _) m = negated (pos m)
signed (negsuc _) (negsuc _) m = pos m

abbrev scaled : ℕ → ℕ → ℕ
scaled m k = if k == 0 then m * 1000 else if k == 1 then m * 100 else if k == 2 then m * 10 else m

-- the root of `n` from the bits that remain to be tried
abbrev root_from : List ℕ → ℕ → ℕ → ℕ
root_from [] r n = r
root_from (bit ∷ bits) r n = root_from bits (if leb ((r + bit) * (r + bit)) n then r + bit else r) n

abbrev bits : List ℕ
bits =
    65536 ∷ 32768 ∷ 16384 ∷ 8192 ∷ 4096 ∷ 2048 ∷ 1024 ∷ 512 ∷ 256 ∷ 128 ∷ 64 ∷ 32 ∷ 16 ∷ 8 ∷ 4 ∷ 2
    ∷ 1 ∷ []

abbrev product : ℤ → ℤ → ℤ
product a b = signed a b (magnitude_of a * magnitude_of b / 1000)

instance abbrev pub thousandths : Double ℤ
thousandths = record {
  decimal = λ m k. pos (scaled m k);
  neg = negated;
  add = λ a b. a +ℤ b;
  sub = λ a b. a -ℤ b;
  mul = product;
  div = λ a b. signed a b (magnitude_of a * 1000 / magnitude_of b);
  sqrt = λ a. pos (root_from bits 0 (pos_part a * 1000));
  cos = λ a. pos 1000 -ℤ product a a;
  sin = λ a. a;
  pi = pos 3142;
  lt = ltb_ℤ;
  le = leb_ℤ;
  eq = eqb_ℤ;
}

pub thousandths-IsOrdered : IsOrdered ℤ
thousandths-IsOrdered = record {
  refl_of_le = λ x y h. ground arith;
  le_total = λ x y h k. ground arith;
  lt-eq-not-le = λ x y h k. ground arith;
  eq_sound = λ x y h. eq_of_parts x y (ground arith);
}
