-- ===== src/Base/Text/Split.antt =====
-- The parts of a `split`.
use Prim.Native.Nat.{ℕ}
use mathlib.Core.Path.{◌≡◌, refl}
use mathlib.Core.Bool.{true, false}
use mathlib.Core.Logic.{inl, inr}
use mathlib.Core.List.{List, [], ◌∷◌, ◌++◌}
use native.Mathlib.Omega.{arith}
use realtime_game_server.Base.Tests.{◌==◌, Bool-cases}
use realtime_game_server.Base.Text.{Text, onto_first, split, lacks, all_lack}

onto_first-lacks :
    (separator c : ℕ) (parts : List Text)
    → (c == separator) ≡ false
    → all_lack separator parts ≡ true
    → all_lack separator (onto_first c parts) ≡ true
onto_first-lacks separator c [] h a = ground (arith, h)
onto_first-lacks separator c (part ∷ parts) h a = ground (arith, h, a)

-- No part has the separator.
pub split-lacks : (separator : ℕ) (t : Text) → all_lack separator (split separator t) ≡ true
unfolding split
split-lacks separator [] = refl
split-lacks separator (c ∷ cs) = elim (Bool-cases (c == separator)) [
  | inl same ↦ rw same (split-lacks separator cs)
  | inr other ↦
      rw other (onto_first-lacks separator c (split separator cs) other (split-lacks separator cs))
]

module _ (separator : ℕ) where
  pub split_part : (p : Text) → lacks separator p ≡ true → split separator p ≡ p ∷ []
  unfolding split
  split_part [] h = refl
  split_part (c ∷ cs) h = ground (arith, h, split_part cs)

  pub split_append :
      (p rest : Text)
      → lacks separator p ≡ true
      → split separator (p ++ separator ∷ rest) ≡ p ∷ split separator rest
  unfolding split
  split_append [] rest h = ground arith
  split_append (c ∷ cs) rest h = ground (arith, h, split_append cs rest)
