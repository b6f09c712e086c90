-- ===== src/Base/Action.antt =====
-- Code that reads and writes a store and may throw. What was written before a throw stays written,
-- so the state comes back beside the error too; `transaction` alone rolls it back.
pub mod Keeps
use Prim.Native.String.{String}
use mathlib.Core.Bool.{Bool}
use mathlib.Core.Option.{Option, none, some}
use realtime_game_server.Base.Tests.{⊤, if◌then◌else◌}

-- src/domain/errors/app-error.ts: the subclasses of `AppError`, each with its message (`not_found`
-- with the resource); `unexpected` is any other exception, such as one of the database client.
pub data Error : Type 0 where
  not_found conflict unauthorized forbidden validation rate_limit unexpected : String → Error

pub data Result (A : Type 0) : Type 0 where
  ok : A → Result A
  err : Error → Result A

abbrev pub Action : Type 0 → Type 0 → Type 0
Action S A = S → Result A × S

module _ {S A : Type 0} where
  abbrev pub pure : A → Action S A
  pure a s = (ok a, s)

  abbrev pub throw : Error → Action S A
  throw e s = (err e, s)

  abbrev pub gets : (S → A) → Action S A
  gets f s = (ok (f s), s)

  -- `if (!o) throw e`
  abbrev pub or_throw : Option A → Error → Action S A
  or_throw none e = throw e
  or_throw (some a) _ = pure a

  -- `prisma.$transaction(m)`: a throw undoes what `m` wrote
  abbrev pub transaction : Action S A → Action S A
  transaction m s = let (r, s') = m s in elim r [ ok a ↦ (ok a, s') | err e ↦ (err e, s) ]

infixl 5 ◌>>=◌ ◌>>◌
abbrev pub ◌>>=◌ : {S A B : Type 0} → Action S A → (A → Action S B) → Action S B
◌>>=◌ m f s = let (r, s') = m s in elim r [ ok a ↦ f a s' | err e ↦ (err e, s') ]

abbrev pub ◌>>◌ : {S A B : Type 0} → Action S A → Action S B → Action S B
m >> k = m >>= λ _. k

-- `if (c) throw e`
abbrev pub throw_if : {S : Type 0} → Bool → Error → Action S ⊤
throw_if c e s = (if c then err e else ok tt, s)

abbrev pub modify : {S : Type 0} → (S → S) → Action S ⊤
modify f s = (ok tt, f s)
