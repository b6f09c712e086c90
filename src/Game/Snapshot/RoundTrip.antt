-- ===== src/Game/Snapshot/RoundTrip.antt =====
-- `computeDelta` followed by the client's merge.
use realtime_game_server.Base.{
  ◌∙◌, ap, ◌≡◌, refl, ◌≢◌, Bool, true, not, ◌&&◌, Option, none, some, List, [], ◌∷◌, ◌++◌, inl, inr,
  arith, Key, ◌==◌, if◌then◌else◌, any, filter, All, Option-cases, Bool-cases,
}
use realtime_game_server.Base.Dict.{
  Dict, lookup, insert, erase, keys, contains, lookup-insert, lookup-erase,
}
use realtime_game_server.Game.Double.{Double, IsOrdered}
use realtime_game_server.Game.Snapshot.{
  PlayerSnapshot, Patch, set_all, patch_of, change_of, changes_of, compute_delta,
}
use realtime_game_server.Game.Snapshot.Client.{
  apply_change, apply_changes, erase_all, apply_delta, SameView, IsTracked, Distinct,
  merge-patch_of, clean_eq,
}

abbrev pub or_else : {A : Type 0} → Option A → Option A → Option A
or_else none b = b
or_else (some a) b = some a

module _ {W : Type 0} where
  pub lookup-set_all :
      (j : Key) (ps : List (PlayerSnapshot W)) (m : Dict (PlayerSnapshot W))
      → lookup j (set_all ps m) ≡ or_else (lookup j (set_all ps [])) (lookup j m)
  unfolding set_all lookup
  lookup-set_all j [] m = refl
  lookup-set_all j (p ∷ ps) m = ground (
    arith,
    lookup-set_all j ps (insert p.id p m),
    lookup-set_all j ps (insert p.id p []),
    lookup-insert p.id j p m,
    lookup-insert p.id j p [],
  )

  contains-set_all :
      (ps : List (PlayerSnapshot W)) (m : Dict (PlayerSnapshot W))
      → All (λ p. contains p.id (set_all ps m) ≡ true) ps
  unfolding set_all
  contains-set_all [] m = tt
  contains-set_all (p ∷ ps) m = (
    ground (arith, lookup-set_all p.id ps (insert p.id p m), lookup-insert p.id p.id p m),
    contains-set_all ps (insert p.id p m),
  )

  lookup-erase_all :
      (j : Key) (ks : List Key) (m : Dict (PlayerSnapshot W))
      → lookup j (erase_all ks m) ≡ (if any (λ k. k == j) ks then none else lookup j m)
  unfolding erase_all
  lookup-erase_all j [] m = refl
  lookup-erase_all j (k ∷ ks) m =
      ground (arith, lookup-erase_all j ks (erase k m), lookup-erase k j m)

  any-keys : (j : Key) (m : Dict (PlayerSnapshot W)) → any (λ k. k == j) (keys m) ≡ contains j m
  unfolding keys lookup
  any-keys j [] = refl
  any-keys j ((k, p) ∷ m) = ground (arith, any-keys j m)

any-filter :
    (f : Key → Bool) (j : Key) (ks : List Key)
    → any (λ k. k == j) (filter f ks) ≡ (f j && any (λ k. k == j) ks)
any-filter f j [] = ground arith
any-filter f j (k ∷ ks) = elim (Bool-cases (k == j)) [
  | inl e ↦ ground (arith, any-filter f j ks)
  | inr e ↦ ground (arith, any-filter f j ks)
]

-- The snapshots that the server keeps after a delta: `previousSnapshots` without the removed
-- players, with every current snapshot written over it.
abbrev pub kept :
    {W : Type 0} ⦃d : Double W⦄
    → Dict (PlayerSnapshot W)
    → List (PlayerSnapshot W)
    → Dict (PlayerSnapshot W)
kept previous current =
    set_all current (erase_all (compute_delta previous current).removed previous)

module _ {W : Type 0} where
  erase_all-SameView :
      (ks : List Key) (a b : Dict (PlayerSnapshot W))
      → SameView a b
      → SameView (erase_all ks a) (erase_all ks b)
  erase_all-SameView ks a b h j = simp (lookup-erase_all, h)

  insert-SameView :
      (p : PlayerSnapshot W) (k : Key) (a b : Dict (PlayerSnapshot W))
      → SameView a b
      → SameView (insert k p a) (insert k p b)
  insert-SameView p k a b h j = simp (lookup-insert, h)

  apply_changes-append :
      (xs ys : List (Patch W)) (v : Dict (PlayerSnapshot W))
      → apply_changes (xs ++ ys) v ≡ apply_changes ys (apply_changes xs v)
  unfolding apply_changes
  apply_changes-append [] ys v = refl
  apply_changes-append (c ∷ xs) ys v = apply_changes-append xs ys (apply_change v c)

  -- the entries of the players that are still to come are those of `previous`
  abbrev Agrees :
      Dict (PlayerSnapshot W) → Dict (PlayerSnapshot W) → List (PlayerSnapshot W) → Type 0
  Agrees view previous ps = All (λ p. lookup p.id view ≡ lookup p.id previous) ps

  Agrees-insert :
      (view previous : Dict (PlayerSnapshot W)) (p : PlayerSnapshot W)
      (ps : List (PlayerSnapshot W))
      → All (λ q. p.id ≢ q.id) ps
      → Agrees view previous ps
      → Agrees (insert p.id p view) previous ps
  Agrees-insert view previous p [] n h = tt
  Agrees-insert view previous p (q ∷ qs) n h =
      (ground (arith, lookup-insert p.id q.id p view), Agrees-insert view previous p qs n.1 h.1)

module _ {W : Type 0} ⦃d : Double W⦄ (o : IsOrdered W) (previous : Dict (PlayerSnapshot W)) where
  apply_change-patch_of :
      (q p : PlayerSnapshot W) (a : Dict (PlayerSnapshot W))
      → lookup p.id a ≡ some q
      → q.username ≡ p.username
      → apply_change a (patch_of q p) ≡ insert p.id p a
  unfolding apply_change patch_of
  apply_change-patch_of q p a e u = rw e (ap (λ r. insert p.id r a) (merge-patch_of o q p u))

  change_of-SameView :
      (p : PlayerSnapshot W) (a b : Dict (PlayerSnapshot W))
      → SameView a b
      → IsTracked previous p
      → lookup p.id b ≡ lookup p.id previous
      → SameView (apply_changes (change_of (lookup p.id previous) p) a) (insert p.id p b)
  unfolding change_of apply_changes
  change_of-SameView p a b h t e j = elim (Option-cases (lookup p.id previous)) [
    | inl new ↦
        unfold apply_change in
        ground (arith, h p.id, h j, lookup-insert p.id j p a, lookup-insert p.id j p b)
    | inr (q, old) ↦ ground (
      arith,
      old,
      t q old,
      h p.id,
      h j,
      apply_change-patch_of q p a,
      clean_eq o q p,
      lookup-insert p.id j p a,
      lookup-insert p.id j p b,
    )
  ]

  -- Applied to a view of `previous`, the changes give the view that the server keeps.
  changes_of-SameView :
      (ps : List (PlayerSnapshot W)) (a b : Dict (PlayerSnapshot W))
      → SameView a b
      → Distinct ps
      → All (IsTracked previous) ps
      → Agrees b previous ps
      → SameView (apply_changes (changes_of previous ps) a) (set_all ps b)
  unfolding changes_of set_all
  changes_of-SameView [] a b h n t g = unfold apply_changes in h
  changes_of-SameView (p ∷ ps) a b h n t g = rw apply_changes-append (
      changes_of-SameView ps (apply_changes (change_of (lookup p.id previous) p) a)
        (insert p.id p b) (change_of-SameView p a b h t.0 g.0) n.1 t.1
        (Agrees-insert b previous p ps n.0 g.1))

module _ {W : Type 0} ⦃d : Double W⦄ where
  lookup-removed :
      (previous : Dict (PlayerSnapshot W)) (current : List (PlayerSnapshot W)) (j : Key)
      → lookup j (erase_all (compute_delta previous current).removed previous)
        ≡ (if contains j (set_all current []) then lookup j previous else none)
  unfolding compute_delta
  lookup-removed previous current j = ground (
    arith,
    lookup-erase_all j (filter (λ k. not (contains k (set_all current []))) (keys previous))
        previous,
    any-filter (λ k. not (contains k (set_all current []))) j (keys previous),
    any-keys j previous,
  )

  removed-Agrees :
      (previous : Dict (PlayerSnapshot W)) (current ps : List (PlayerSnapshot W))
      → All (λ p. contains p.id (set_all current []) ≡ true) ps
      → Agrees (erase_all (compute_delta previous current).removed previous) previous ps
  removed-Agrees previous current [] h = tt
  removed-Agrees previous current (p ∷ ps) h =
      (rw (lookup-removed, h.0), removed-Agrees previous current ps h.1)

  -- What the server keeps after a delta are exactly the current snapshots.
  pub kept-SameView :
      (previous : Dict (PlayerSnapshot W)) (current : List (PlayerSnapshot W))
      → SameView (kept previous current) (set_all current [])
  kept-SameView previous current j = ground (
    arith,
    lookup-set_all j current (erase_all (compute_delta previous current).removed previous),
    lookup-removed previous current j,
  )

module _ {W : Type 0} ⦃d : Double W⦄ (o : IsOrdered W) where
  -- A client that holds the previous snapshots and applies the delta holds the current ones, where
  -- the current snapshots have distinct identifiers and a player that was known has kept its name.
  pub apply_delta-compute_delta :
      (previous view : Dict (PlayerSnapshot W)) (current : List (PlayerSnapshot W))
      → SameView view previous
      → Distinct current
      → All (IsTracked previous) current
      → SameView (apply_delta (compute_delta previous current) view) (set_all current [])
  unfolding apply_delta compute_delta
  apply_delta-compute_delta previous view current h n t j =
      let removed : List Key = (compute_delta previous current).removed in
      changes_of-SameView o previous current (erase_all removed view) (erase_all removed previous)
        (erase_all-SameView removed view previous h) n t
        (removed-Agrees previous current current (contains-set_all current [])) j
      ∙ kept-SameView previous current j
