-- ===== src/Auth/Tokens/Duration/Decimal.antt =====
-- Which durations are read, and as how many milliseconds.
use Prim.Native.Nat.{◌^◌}
use native.Mathlib.Nat.{pow-suc}
use realtime_game_server.Game.Double.{Double, num, ◌⊗◌}
use realtime_game_server.Base.{
  ◌∙◌, ℕ, ◌+◌, ◌-◌, ◌*◌, ◌≡◌, ◌≢◌, ◌↔◌, refl, ap, true, some, List, [], ◌∷◌, ◌++◌, all, All,
  Bool-cases, ◌==◌, ◌≤◌, length, arith, Option-cases, inl, inr,
}
use realtime_game_server.Auth.Tokens.Duration.{
  is_digit, multiplier, parse_rest, parse_duration_to_ms,
}

-- the number that decimal digits spell, each by its place
abbrev pub decimal : List ℕ → ℕ
decimal [] = 0
decimal (c ∷ cs) = (c - b'0') * 10 ^ length cs + decimal cs

-- the letters, each with the milliseconds of its unit
pub data IsUnit : (letter factor : ℕ) → Type 0 where
  second : IsUnit b's' 1000
  minute : IsUnit b'm' (60 * 1000)
  hour : IsUnit b'h' (60 * 60 * 1000)
  day : IsUnit b'd' (24 * 60 * 60 * 1000)

abbrev pub IsDigit : ℕ → Type 0
IsDigit c = (b'0' ≤ c) × (c ≤ b'9')

unit_at : {c k m n : ℕ} → (c == k) ≡ true → n ≡ m → IsUnit k n → IsUnit c m
unit_at {c} {k} e f u = let same : c ≡ k = ground (arith, e) in rw (same, ← f) u

multiplier-IsUnit : (c m : ℕ) → multiplier c ≡ some m → IsUnit c m
unfolding multiplier
multiplier-IsUnit c m h = elim (Bool-cases (c == b's')) [
  | inl s ↦ unit_at s (ground (arith, h, s)) second
  | inr ns ↦ elim (Bool-cases (c == b'm')) [
    | inl s ↦ unit_at s (ground (arith, h, s)) minute
    | inr nm ↦ elim (Bool-cases (c == b'h')) [
      | inl s ↦ unit_at s (ground (arith, h, s)) hour
      | inr nh ↦ elim (Bool-cases (c == b'd')) [
        | inl s ↦ unit_at s (ground (arith, h, s)) day
        | inr nd ↦ absurd (ground (arith, h, ns, nm, nh, nd))
      ]
    ]
  ]
]

IsUnit-multiplier : {c m : ℕ} → IsUnit c m → multiplier c ≡ some m
unfolding multiplier
IsUnit-multiplier second = refl
IsUnit-multiplier minute = refl
IsUnit-multiplier hour = refl
IsUnit-multiplier day = refl

digits-all : (cs : List ℕ) → All IsDigit cs → all is_digit cs ≡ true
digits-all [] h = refl
digits-all (c ∷ cs) (h, hs) = ground (arith, h, digits-all cs hs)

all-digits : (cs : List ℕ) → all is_digit cs ≡ true → All IsDigit cs
all-digits [] h = tt
all-digits (c ∷ cs) h = ((ground (arith, h), ground (arith, h)), all-digits cs (ground (arith, h)))

distributed : (v c p r : ℕ) → (v * 10 + c) * p + r ≡ v * (p * 10) + (c * p + r)
distributed v c p r = omega arith

shifted :
    (v c : ℕ) (cs : List ℕ)
    → (v * 10 + (c - b'0')) * 10 ^ length cs + decimal cs
      ≡ v * 10 ^ length (c ∷ cs) + decimal (c ∷ cs)
shifted v c cs =
    rw (pow-suc 10 (length cs)) (distributed v (c - b'0') (10 ^ length cs) (decimal cs))

append_some : (cs : List ℕ) (letter : ℕ) → cs ++ letter ∷ [] ≢ []
append_some [] letter e = absurd (ground (arith, e))
append_some (c ∷ cs) letter e = absurd (ground (arith, e))

module _ {W : Type 0} ⦃d : Double W⦄ where
  -- The text is digits, at least one, and a unit; its milliseconds are the number times the unit's.
  pub record IsDuration (text : List ℕ) (ms : W) : Type 0 where
    digits : List ℕ
    letter : ℕ
    factor : ℕ
    spelled : text ≡ digits ++ letter ∷ []
    some_digit : digits ≢ []
    are_digits : All IsDigit digits
    unit : IsUnit letter factor
    value : ms ≡ num (decimal digits) ⊗ num factor

  -- the same, behind digits that have the value `v`
  record IsRest (v : ℕ) (text : List ℕ) (ms : W) : Type 0 where
    digits : List ℕ
    letter : ℕ
    factor : ℕ
    spelled : text ≡ digits ++ letter ∷ []
    are_digits : all is_digit digits ≡ true
    unit : multiplier letter ≡ some factor
    value : ms ≡ num (v * 10 ^ length digits + decimal digits) ⊗ num factor

  parse_rest-IsRest :
      (v : ℕ) (text : List ℕ) (ms : W) → parse_rest v text ≡ some ms → IsRest v text ms
  unfolding parse_rest
  parse_rest-IsRest v [] ms h = absurd (ground arith)
  parse_rest-IsRest v (c ∷ []) ms h = elim (Option-cases (multiplier c)) [
    | inl bad ↦ absurd (ground arith)
    | inr (m, good) ↦ record {
      digits = [];
      letter = c;
      factor = m;
      spelled = refl;
      are_digits = refl;
      unit = good;
      value = let e : v * 10 ^ 0 + 0 ≡ v = omega arith in rw e (ground (arith, h, good));
    }
  ]
  parse_rest-IsRest v (c ∷ e ∷ cs) ms h =
      let rest = parse_rest-IsRest (v * 10 + (c - b'0')) (e ∷ cs) ms (ground arith) in
      record {
        digits = c ∷ rest.digits;
        letter = rest.letter;
        factor = rest.factor;
        spelled = ap (λ t. c ∷ t) rest.spelled;
        are_digits = ground (arith, rest.are_digits);
        unit = rest.unit;
        value = rw (← shifted v c rest.digits) rest.value;
      }

  parse_rest_step :
      (v c : ℕ) (t : List ℕ)
      → t ≢ []
      → is_digit c ≡ true
      → parse_rest {W = W} v (c ∷ t) ≡ parse_rest (v * 10 + (c - b'0')) t
  unfolding parse_rest
  parse_rest_step v c [] n h = absurd (n refl)
  parse_rest_step v c (e ∷ es) n h = ground (arith, h)

  parse_rest_digits :
      (digits : List ℕ) (v letter factor : ℕ)
      → all is_digit digits ≡ true
      → multiplier letter ≡ some factor
      → parse_rest {W = W} v (digits ++ letter ∷ [])
        ≡ some (num (v * 10 ^ length digits + decimal digits) ⊗ num factor)
  unfolding parse_rest
  parse_rest_digits [] v letter factor a u =
      let e : v * 10 ^ 0 + 0 ≡ v = omega arith in rw e (ground (arith, u))
  parse_rest_digits (c ∷ cs) v letter factor a u =
      parse_rest_step v c (cs ++ letter ∷ []) (append_some cs letter) (ground (arith, a))
      ∙ parse_rest_digits cs (v * 10 + (c - b'0')) letter factor (ground (arith, a)) u
      ∙ ap (λ (n : ℕ). some (num n ⊗ num factor)) (shifted v c cs)

  parse-IsDuration :
      (text : List ℕ) (ms : W) → parse_duration_to_ms text ≡ some ms → IsDuration text ms
  unfolding parse_duration_to_ms
  parse-IsDuration [] ms h = absurd (ground arith)
  parse-IsDuration (c ∷ cs) ms h =
      let rest = parse_rest-IsRest (c - b'0') cs ms (ground arith) in
      record {
        digits = c ∷ rest.digits;
        letter = rest.letter;
        factor = rest.factor;
        spelled = ap (λ t. c ∷ t) rest.spelled;
        some_digit = λ e. absurd (ground (arith, e));
        are_digits = all-digits (c ∷ rest.digits) (ground (arith, rest.are_digits));
        unit = multiplier-IsUnit rest.letter rest.factor rest.unit;
        value = rest.value;
      }

  IsDuration-parse_digits :
      (digits : List ℕ) (letter factor : ℕ)
      → digits ≢ []
      → all is_digit digits ≡ true
      → multiplier letter ≡ some factor
      → parse_duration_to_ms {W = W} (digits ++ letter ∷ [])
        ≡ some (num (decimal digits) ⊗ num factor)
  unfolding parse_duration_to_ms
  IsDuration-parse_digits [] letter factor n a u = absurd (n refl)
  IsDuration-parse_digits (c ∷ cs) letter factor n a u =
      ground (arith, a, parse_rest_digits cs (c - b'0') letter factor (ground (arith, a)) u)

  -- A text is read as a duration exactly if it is decimal digits, at least one, and one of the
  -- letters s, m, h and d after them, and its milliseconds are the product, as JavaScript
  -- multiplies numbers, of the number that the digits spell, as JavaScript reads it, and 1000, 60 *
  -- 1000, 60 * 60 * 1000 or 24 * 60 * 60 * 1000.
  pub parse_duration_to_ms-IsDuration :
      (text : List ℕ) (ms : W) → (parse_duration_to_ms text ≡ some ms) ↔ IsDuration text ms
  parse_duration_to_ms-IsDuration text ms = (
    parse-IsDuration text ms,
    (λ h.
        rw (h.spelled, h.value)
          (IsDuration-parse_digits h.digits h.letter h.factor h.some_digit
            (digits-all h.digits h.are_digits) (IsUnit-multiplier h.unit))),
  )
