-- ===== src/Base/Action/Keeps.antt =====
-- Invariants of actions, one rule for each way to build an action.
use mathlib.Core.Bool.{Bool, true, false}
use mathlib.Core.Option.{Option, none, some}
use realtime_game_server.Base.Tests.{if◌then◌else◌}
use realtime_game_server.Base.Action.{
  Error, Result, ok, err, Action, pure, throw, gets, or_throw, throw_if, ◌>>=◌,
}

-- `m` keeps `P`, whether it returns or throws
pub record Keeps {S A : Type 0} (P : S → Type 0) (m : Action S A) : Type 0 where
  pub at : (s : S) → P s → P (m s).1

module _ {S A : Type 0} {P : S → Type 0} where
  pub Keeps-pure : (a : A) → Keeps P (pure a)
  Keeps-pure a = record { at = λ s h. h }

  pub Keeps-throw : (e : Error) → Keeps P (throw {A = A} e)
  Keeps-throw e = record { at = λ s h. h }

  pub Keeps-gets : (f : S → A) → Keeps P (gets f)
  Keeps-gets f = record { at = λ s h. h }

  pub Keeps-or_throw : (o : Option A) (e : Error) → Keeps P (or_throw o e)
  Keeps-or_throw none e = record { at = λ s h. h }
  Keeps-or_throw (some a) e = record { at = λ s h. h }

  pub Keeps-if :
      (b : Bool) (m n : Action S A) → Keeps P m → Keeps P n → Keeps P (if b then m else n)
  Keeps-if true m n km kn = km
  Keeps-if false m n km kn = kn

module _ {S : Type 0} {P : S → Type 0} where
  pub Keeps-throw_if : (b : Bool) (e : Error) → Keeps P (throw_if b e)
  Keeps-throw_if b e = record { at = λ s h. h }

module _ {S A B : Type 0} {P : S → Type 0} where
  after :
      (r : Result A) (f : A → Action S B)
      → ((a : A) → Keeps P (f a))
      → Keeps P ((λ (s : S). (r, s)) >>= f)
  after (ok a) f k = k a
  after (err e) f k = record { at = λ s h. h }

  pub Keeps-bind :
      (m : Action S A) (f : A → Action S B)
      → Keeps P m
      → ((a : A) → Keeps P (f a))
      → Keeps P (m >>= f)
  Keeps-bind m f km kf = record {
    at = λ s h. let (r, s') = m s in (after r f kf).at s' (km.at s h);
  }

pub ruleset keeps_rules =
    (Keeps-pure, Keeps-throw, Keeps-gets, Keeps-or_throw, Keeps-throw_if, Keeps-if, Keeps-bind)
