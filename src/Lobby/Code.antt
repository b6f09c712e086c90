-- ===== src/Lobby/Code.antt =====
-- `generateRoomCode` of src/shared/utils/room-code.ts. The draws of `randomInt` are a parameter: its
-- bound and the number of the draw give the number drawn.
use realtime_game_server.Base.{
  ℕ, zero, suc, ◌<◌, ◌≡◌, refl, sym, map, ◌∙◌, Bool, true, ◌&&◌, List, [], ◌∷◌, ◌++◌, ◌==◌, arith,
  length, any, all, Bool-cases, inl, inr, if◌then◌else◌,
}
use mathlib.Core.List.{append_assoc, append-nil}
use realtime_game_server.Base.Text.{Text, codes}

abbrev pub alphabet : Text
alphabet = codes "ABCDEFGHJKLMNPQRSTUVWXYZ23456789"

-- `text[i]`, as `+=` writes it where there is no such unit
unfoldable pub unit_at : Text → ℕ → Text
unit_at [] i = codes "undefined"
unit_at (c ∷ cs) zero = c ∷ []
unit_at (c ∷ cs) (suc i) = unit_at cs i

module _ (random_int : (bound draw : ℕ) → ℕ) where
  -- the loop, with the rounds that are left, the round and the code so far
  unfoldable pub add_units : (rounds i : ℕ) → Text → Text
  unfolding unit_at
  add_units zero i code = code
  add_units (suc rounds) i code =
      add_units rounds (suc i) (code ++ unit_at alphabet (random_int (length alphabet) i))

  unfoldable pub generate_room_code : (rounds : ℕ) → Text
  generate_room_code rounds = add_units rounds 0 []

-- the unit is a capital letter but I and O, or a digit from 2 on
abbrev pub is_code_unit : ℕ → Bool
is_code_unit c = any (λ a. a == c) alphabet

-- where a unit stands first
pub index_of : Text → ℕ → ℕ
index_of [] c = 0
index_of (a ∷ as') c = if a == c then 0 else suc (index_of as' c)

first_of : Text → ℕ
first_of [] = 0
first_of (c ∷ _) = c

-- the test holds of the numbers below the bound
all_below : ℕ → (ℕ → Bool) → Bool
all_below zero f = true
all_below (suc n) f = f n && all_below n f

all_below_at : (n i : ℕ) (f : ℕ → Bool) → all_below n f ≡ true → i < n → f i ≡ true
unfolding all_below
all_below_at zero i f h l = absurd (omega arith)
all_below_at (suc n) i f h l = elim (Bool-cases (i == n)) [
  | inl same ↦ let e : i ≡ n = ground (arith, same) in rw e (ground (arith, h))
  | inr other ↦ all_below_at n i f (ground (arith, h)) (ground (arith, other, l))
]

-- what a draw picks: one unit of the alphabet, another one for each draw
picks : ℕ → Bool
unfolding unit_at index_of first_of
picks i =
    length (unit_at alphabet i) == 1
    && is_code_unit (first_of (unit_at alphabet i))
    && index_of alphabet (first_of (unit_at alphabet i)) == i

all_pick : all_below 32 picks ≡ true
unfolding all_below picks unit_at index_of first_of
all_pick = refl

-- A draw below the alphabet's length picks one unit of the alphabet, from which it can be told.
record Picked (i : ℕ) : Type 0 where
  unit : ℕ
  picked : unit_at alphabet i ≡ unit ∷ []
  known : is_code_unit unit ≡ true
  told : index_of alphabet unit ≡ i

Picked-from :
    (i : ℕ) (t : Text)
    → unit_at alphabet i ≡ t
    → length t ≡ 1
    → is_code_unit (first_of t) ≡ true
    → index_of alphabet (first_of t) ≡ i
    → Picked i
unfolding first_of
Picked-from i [] e l k d = absurd (omega (arith, l))
Picked-from i (c ∷ []) e l k d = record { unit = c; picked = e; known = k; told = d }
Picked-from i (c ∷ c' ∷ cs) e l k d = absurd (omega (arith, l))

and_cases : (a b c : Bool) → (a && b && c) ≡ true → (a ≡ true) × (b ≡ true) × (c ≡ true)
and_cases a b c h = ground (arith, h)

draw-Picked : (i : ℕ) → i < 32 → Picked i
unfolding picks
draw-Picked i l =
    let h = all_below_at 32 i picks all_pick l in
    let t = unit_at alphabet i in
    let (one, known, told) =
      and_cases (length t == 1) (is_code_unit (first_of t)) (index_of alphabet (first_of t) == i)
        h in
    Picked-from i t refl (ground (arith, one)) known (ground (arith, told))

module _ (random_int : (bound draw : ℕ) → ℕ) where
  -- the draws of the rounds from `i` on
  abbrev pub draws : (rounds i : ℕ) → List ℕ
  draws zero i = []
  draws (suc rounds) i = random_int (length alphabet) i ∷ draws rounds (suc i)

  spelled : (rounds i : ℕ) → Text
  spelled zero i = []
  spelled (suc rounds) i =
      unit_at alphabet (random_int (length alphabet) i) ++ spelled rounds (suc i)

  add_units-spelled :
      (rounds i : ℕ) (code : Text) → add_units random_int rounds i code ≡ code ++ spelled rounds i
  unfolding add_units spelled
  add_units-spelled zero i code = sym (append-nil code)
  add_units-spelled (suc rounds) i code =
      add_units-spelled rounds (suc i) _ ∙ append_assoc code _ (spelled rounds (suc i))

  module _ (below : (draw : ℕ) → random_int 32 draw < 32) where
    spelled_units :
        (rounds i : ℕ)
        → (length (spelled rounds i) ≡ rounds)
          × (all is_code_unit (spelled rounds i) ≡ true)
          × (map (index_of alphabet) (spelled rounds i) ≡ draws rounds i)
    unfolding spelled
    spelled_units zero i = (refl, refl, refl)
    spelled_units (suc rounds) i =
        let p = draw-Picked (random_int 32 i) (below i) in
        let (l, k, d) = spelled_units rounds (suc i) in
        rw (p.picked) (omega (arith, l), ground (arith, p.known, k), ground (arith, p.told, d))

    -- If every draw is below the length of the alphabet, a room's code has as many units as there
    -- are rounds, each of them one of the alphabet, and their places in the alphabet are the draws:
    -- different draws give different codes.
    pub generate_room_code-draws :
        (rounds : ℕ)
        → let code = generate_room_code random_int rounds in
          (length code ≡ rounds)
          × (all is_code_unit code ≡ true)
          × (map (index_of alphabet) code ≡ draws rounds 0)
    unfolding generate_room_code
    generate_room_code-draws rounds = rw (add_units-spelled rounds 0 []) (spelled_units rounds 0)
