-- ===== src/Game/Session/Removed.antt =====
-- A player that was removed, and what a session tells its clients of it.
use realtime_game_server.Base.{
  ℕ, ◌+◌, ◌≡◌, refl, Bool, true, false, not, List, [], ◌∷◌, inl, inr, arith, Key, filter, All,
  Option-cases,
}
use realtime_game_server.Base.Dict.{Dict, lookup, keys, contains, lookup-insert}
use realtime_game_server.Game.Double.{Double}
use realtime_game_server.Game.Snapshot.{PlayerSnapshot, Patch, set_all, compute_delta}
use realtime_game_server.Game.Snapshot.Client.{
  apply_change, apply_changes, apply_delta, erase_all, merged,
}
use realtime_game_server.Game.Session.{
  Settings, GameSession, current_snapshots, remove_player, visit_all, should_full, publish, step,
}
use realtime_game_server.Game.Session.Invariant.{IsValid, remove_player-IsValid}
use realtime_game_server.Game.Session.Replica.{
  current-Shows, receive_all, receive_all-disconnects, receive_all-delta_events, visited-IsValid,
}

keys-All :
    {V : Type 0} (P : Key → Type 0) (d : Dict V)
    → ((k : Key) → contains k d ≡ true → P k)
    → All P (keys d)
unfolding keys lookup
keys-All P [] h = tt
keys-All P ((k, v) ∷ d) h = (h k (ground arith), keys-All P d (λ j e. h j (ground arith)))

filter-none : (f : Key → Bool) (ks : List Key) → All (λ k. f k ≡ false) ks → filter f ks ≡ []
filter-none f [] h = refl
filter-none f (k ∷ ks) h = rw h.0 (filter-none f ks h.1)

module _ {W : Type 0} ⦃d : Double W⦄ where
  -- In a valid session no delta names a player as removed: `removePlayer` has deleted the snapshot
  -- from which the tick would find out.
  pub removed-nil :
      (s : GameSession W)
      → IsValid s
      → (compute_delta s.previous_snapshots (current_snapshots s)).removed ≡ []
  unfolding compute_delta
  removed-nil s v = filter-none _ (keys s.previous_snapshots) (
      keys-All (λ k. not (contains k (set_all (current_snapshots s) [])) ≡ false)
        s.previous_snapshots (λ k e. ground (arith, current-Shows s v k, v.known k e)))

  contains-apply_change :
      (k : Key) (c : Patch W) (view : Dict (PlayerSnapshot W))
      → contains k view ≡ true
      → contains k (apply_change view c) ≡ true
  unfolding apply_change
  contains-apply_change k c view h = elim (Option-cases (merged (lookup c.id view) c)) [
    | inl nothing ↦ rw nothing h
    | inr (p, e) ↦ rw e (ground (arith, lookup-insert c.id k p view))
  ]

  contains-apply_changes :
      (k : Key) (cs : List (Patch W)) (view : Dict (PlayerSnapshot W))
      → contains k view ≡ true
      → contains k (apply_changes cs view) ≡ true
  unfolding apply_changes
  contains-apply_changes k [] view h = h
  contains-apply_changes k (c ∷ cs) view h =
      contains-apply_changes k cs (apply_change view c) (contains-apply_change k c view h)

  -- In a valid session, a client that shows a player still shows it after the player is removed and
  -- the next tick comes, if that tick does not send a full snapshot.
  pub removed_stays :
      (env : Settings W) (now : ℕ) (id : Key) (s : GameSession W) (view : Dict (PlayerSnapshot W))
      → IsValid s
      → contains id view ≡ true
      → let s' = remove_player id s in
        should_full (visit_all env now s'.players (record s' { tick = s'.tick + 1 })) ≡ false
        → contains id (receive_all (step env now (remove_player id s)).1 view) ≡ true
  unfolding step publish
  removed_stays env now id s view v h part =
      let s' = remove_player id s in
      let s₁ = visit_all env now s'.players (record s' { tick = s'.tick + 1 }) in
      let none_removed =
        removed-nil s₁ (visited-IsValid env now s' (remove_player-IsValid id s v)) in
      rw (receive_all-disconnects, part)
        (rw receive_all-delta_events
          (unfold apply_delta erase_all in rw none_removed (contains-apply_changes id _ view h)))
