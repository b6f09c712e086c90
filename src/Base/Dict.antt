-- ===== src/Base/Dict.antt =====
-- A JavaScript `Map` keyed by texts: its entries in insertion order. Writing a present key keeps
-- its place, a new key goes to the end.
use mathlib.Core.Path.{◌≡◌, refl}
use mathlib.Core.Bool.{Bool, true}
use mathlib.Core.List.{List, [], ◌∷◌}
use mathlib.Core.Option.{Option, none, some}
use native.Mathlib.Omega.{arith}
use realtime_game_server.Base.Tests.{Key, ◌==◌, if◌then◌else◌, is_some, Bool-cases}
use realtime_game_server.Base.Lists.{find?}
use mathlib.Core.Logic.{inl, inr}

abbrev pub Dict {ℓ} : Type ℓ → Type ℓ
Dict V = List (Key × V)

abbrev pub AllEntries {ℓ κ} : {V : Type ℓ} → (Key → V → Type κ) → Dict V → Type κ
AllEntries P [] = Unit
AllEntries P ((k, v) ∷ d) = P k v × AllEntries P d

module _ {ℓ} {V : Type ℓ} where
  -- `d.get(k)`
  unfoldable pub lookup : Key → Dict V → Option V
  lookup k [] = none
  lookup k ((j, v) ∷ d) = if j == k then some v else lookup k d

  -- `d.set(k, v)`
  unfoldable pub insert : Key → V → Dict V → Dict V
  insert k v [] = (k, v) ∷ []
  insert k v ((j, w) ∷ d) = if j == k then (k, v) ∷ d else (j, w) ∷ insert k v d

  -- `d.delete(k)`
  unfoldable pub erase : Key → Dict V → Dict V
  erase k [] = []
  erase k ((j, v) ∷ d) = let rest = erase k d in if j == k then rest else (j, v) ∷ rest

  -- `d.has(k)`
  abbrev pub contains : Key → Dict V → Bool
  contains k d = is_some (lookup k d)

  -- `[...d.keys()]` and `[...d.values()]`
  unfoldable pub keys : Dict V → List Key
  keys [] = []
  keys ((k, _) ∷ d) = k ∷ keys d

  unfoldable pub values : Dict V → List V
  values [] = []
  values ((_, v) ∷ d) = v ∷ values d

  pub lookup-insert :
      (k j : Key) (v : V) (d : Dict V)
      → lookup j (insert k v d) ≡ (if k == j then some v else lookup j d)
  unfolding lookup insert
  lookup-insert k j v [] = refl
  lookup-insert k j v ((i, w) ∷ d) = ground (arith, lookup-insert k j v d)

  pub lookup-erase :
      (k j : Key) (d : Dict V) → lookup j (erase k d) ≡ (if k == j then none else lookup j d)
  unfolding lookup erase
  lookup-erase k j [] = ground arith
  lookup-erase k j ((i, w) ∷ d) = ground (arith, lookup-erase k j d)

  pub lookup-insert_self : (k : Key) (v : V) (d : Dict V) → lookup k (insert k v d) ≡ some v
  lookup-insert_self k v d = ground (arith, lookup-insert k k v d)

  -- No key stands twice, as in a JavaScript `Map`.
  abbrev pub IsMap : Dict V → Type ℓ
  IsMap [] = Unit
  IsMap ((k, _) ∷ d) = (lookup k d ≡ none) × IsMap d

  pub insert-IsMap : (k : Key) (v : V) (d : Dict V) → IsMap d → IsMap (insert k v d)
  unfolding lookup insert
  insert-IsMap k v [] h = (refl, tt)
  insert-IsMap k v ((j, w) ∷ d) h = ground (arith, insert-IsMap k v d h.1, lookup-insert k j v d)

  pub erase-IsMap : (k : Key) (d : Dict V) → IsMap d → IsMap (erase k d)
  unfolding erase
  erase-IsMap k [] h = tt
  erase-IsMap k ((j, w) ∷ d) h = ground (arith, erase-IsMap k d h.1, lookup-erase k j d)

  -- What holds of every entry that is found holds of every value.
  pub values-All {κ} :
      (P : Key → V → Type κ) (d : Dict V)
      → IsMap d
      → ((k : Key) (v : V) → lookup k d ≡ some v → P k v)
      → AllEntries P d
  unfolding lookup
  values-All P [] h a = tt
  values-All P ((k, v) ∷ d) h a =
      (a k v (ground arith), values-All P d h.1 (λ j w e. a j w (ground arith)))

  -- What a search through the values finds is an entry that passes the test.
  pub find?-values :
      (f : V → Bool) (d : Dict V) (v : V)
      → IsMap d
      → find? f (values d) ≡ some v
      → (k : Key) × (lookup k d ≡ some v) × (f v ≡ true)
  unfolding lookup values
  find?-values f [] v m h = absurd (ground arith)
  find?-values f ((j, w) ∷ d) v m h = elim (Bool-cases (f w)) [
    | inl e ↦ (j, ground arith, ground arith)
    | inr e ↦
        let (k, found, passes) = find?-values f d v m.1 (ground arith) in (k, ground arith, passes)
  ]

  -- A value that passes, written where no value passes, is what the search finds.
  pub find?-insert :
      (f : V → Bool) (k : Key) (v : V) (d : Dict V)
      → find? f (values d) ≡ none
      → f v ≡ true
      → find? f (values (insert k v d)) ≡ some v
  unfolding insert values
  find?-insert f k v [] h t = ground arith
  find?-insert f k v ((j, w) ∷ d) h t = ground (arith, find?-insert f k v d)

pub ruleset dict_laws = (lookup-insert, lookup-erase)
