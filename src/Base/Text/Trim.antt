-- ===== src/Base/Text/Trim.antt =====
-- What `trim` leaves.
use Prim.Native.Nat.{ℕ}
use mathlib.Core.Path.{◌≡◌, refl, ap, ◌∙◌}
use mathlib.Core.Bool.{Bool, true, false, not}
use mathlib.Core.List.{[], ◌∷◌}
use native.Mathlib.Omega.{arith}
use realtime_game_server.Base.Tests.{◌==◌}
use realtime_game_server.Base.Text.{Text, is_space, trim_start, keep_end, trim_end, trim, lacks}

keep_end_none : (c : ℕ) → is_space c ≡ false → (t : Text) → keep_end c t ≡ c ∷ t
unfolding keep_end
keep_end_none c h [] = ground (arith, h)
keep_end_none c h (d ∷ ds) = refl

-- the first unit, if there is one, is no white space
abbrev pub is_solid : Text → Bool
is_solid [] = true
is_solid (c ∷ cs) = not (is_space c)

pub solid_trim_start : (t : Text) → is_solid (trim_start t) ≡ true
unfolding trim_start
solid_trim_start [] = refl
solid_trim_start (c ∷ cs) = ground (arith, solid_trim_start cs)

pub trim_start_solid : (t : Text) → is_solid t ≡ true → trim_start t ≡ t
unfolding trim_start
trim_start_solid [] h = refl
trim_start_solid (c ∷ cs) h = ground (arith, h)

pub solid_trim_end : (t : Text) → is_solid t ≡ true → is_solid (trim_end t) ≡ true
unfolding trim_end
solid_trim_end [] h = refl
solid_trim_end (c ∷ cs) h = rw (keep_end_none c (ground (arith, h)) (trim_end cs)) h

keep_end_kept : (c : ℕ) (t : Text) → trim_end t ≡ t → trim_end (keep_end c t) ≡ keep_end c t
unfolding trim_end keep_end
keep_end_kept c [] h = ground arith
keep_end_kept c (d ∷ ds) h = rw h refl

pub trim_end_kept : (t : Text) → trim_end (trim_end t) ≡ trim_end t
unfolding trim_end
trim_end_kept [] = refl
trim_end_kept (c ∷ cs) = keep_end_kept c (trim_end cs) (trim_end_kept cs)

-- A text that was trimmed stays as it is.
pub trim_kept : (t : Text) → trim (trim t) ≡ trim t
unfolding trim
trim_kept t =
    let solid = solid_trim_end (trim_start t) (solid_trim_start t) in
    ap trim_end (trim_start_solid (trim_end (trim_start t)) solid) ∙ trim_end_kept (trim_start t)

trim_start-lacks :
    (separator : ℕ) (t : Text) → lacks separator t ≡ true → lacks separator (trim_start t) ≡ true
unfolding trim_start
trim_start-lacks separator [] h = refl
trim_start-lacks separator (c ∷ cs) h = ground (arith, h, trim_start-lacks separator cs)

keep_end-lacks :
    (separator c : ℕ) (t : Text)
    → (c == separator) ≡ false
    → lacks separator t ≡ true
    → lacks separator (keep_end c t) ≡ true
unfolding keep_end
keep_end-lacks separator c [] h a = ground (arith, h)
keep_end-lacks separator c (d ∷ ds) h a = ground (arith, h, a)

trim_end-lacks :
    (separator : ℕ) (t : Text) → lacks separator t ≡ true → lacks separator (trim_end t) ≡ true
unfolding trim_end
trim_end-lacks separator [] h = refl
trim_end-lacks separator (c ∷ cs) h =
    keep_end-lacks separator c (trim_end cs) (ground (arith, h))
      (trim_end-lacks separator cs (ground (arith, h)))

pub trim-lacks :
    (separator : ℕ) (t : Text) → lacks separator t ≡ true → lacks separator (trim t) ≡ true
unfolding trim
trim-lacks separator t h = trim_end-lacks separator (trim_start t) (trim_start-lacks separator t h)
