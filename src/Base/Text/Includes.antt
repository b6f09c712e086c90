-- ===== src/Base/Text/Includes.antt =====
-- Where `includes` finds a part.
use mathlib.Core.Path.{◌≡◌, refl, ap}
use mathlib.Core.Bool.{true}
use mathlib.Core.Logic.{inl, inr, ◌↔◌}
use mathlib.Core.List.{[], ◌∷◌, ◌++◌}
use native.Mathlib.Omega.{arith}
use realtime_game_server.Base.Tests.{Bool-cases}
use realtime_game_server.Base.Text.{Text, starts_with, includes}

-- The text has the part somewhere.
pub record HasPart (part text : Text) : Type 0 where
  pub before : Text
  pub after : Text
  pub spelled : text ≡ before ++ part ++ after

starts_with_rest :
    (part text : Text) → starts_with part text ≡ true → (after : Text) × (text ≡ part ++ after)
unfolding starts_with
starts_with_rest [] text h = (text, refl)
starts_with_rest (m ∷ ms) [] h = absurd (ground arith)
starts_with_rest (m ∷ ms) (c ∷ cs) h =
    let (after, e) = starts_with_rest ms cs (ground arith) in (after, ground (arith, h, e))

starts_with_append : (part after : Text) → starts_with part (part ++ after) ≡ true
unfolding starts_with
starts_with_append [] after = refl
starts_with_append (m ∷ ms) after = ground (arith, starts_with_append ms after)

includes-HasPart : (part text : Text) → includes part text ≡ true → HasPart part text
unfolding includes
includes-HasPart part [] h =
    let (after, e) = starts_with_rest part [] h in
    record { before = []; after = after; spelled = e }
includes-HasPart part (c ∷ cs) h = elim (Bool-cases (starts_with part (c ∷ cs))) [
  | inl here ↦
      let (after, e) = starts_with_rest part (c ∷ cs) here in
      record { before = []; after = after; spelled = e }
  | inr later ↦
      let rest = includes-HasPart part cs (ground arith) in
      record {
        before = c ∷ rest.before;
        after = rest.after;
        spelled = ap (λ (t : Text). c ∷ t) rest.spelled;
      }
]

includes_append : (part before after : Text) → includes part (before ++ part ++ after) ≡ true
unfolding includes starts_with
includes_append [] [] [] = refl
includes_append [] [] (c ∷ cs) = refl
includes_append (m ∷ ms) [] after = ground (arith, starts_with_append (m ∷ ms) after)
includes_append part (c ∷ cs) after = ground (arith, includes_append part cs after)

-- The search finds a part exactly where it stands somewhere in the text.
pub includes_iff : (part text : Text) → (includes part text ≡ true) ↔ HasPart part text
includes_iff part text =
    (includes-HasPart part text, (λ h. rw (h.spelled) (includes_append part h.before h.after)))
