-- ===== src/Game/Session/Replica.antt =====
-- A client that follows the messages of a session.
use realtime_game_server.Base.{
  ℕ, ◌+◌, ◌≡◌, refl, sym, ◌∙◌, true, List, [], ◌∷◌, ◌++◌, inl, inr, arith, Key, ◌==◌, length,
  Bool-cases, All,
}
use realtime_game_server.Base.Dict.{Dict, lookup, values-All}
use realtime_game_server.Game.Double.{Double, IsOrdered}
use realtime_game_server.Game.AntiCheat.{RuntimePlayerState}
use realtime_game_server.Game.Snapshot.{PlayerSnapshot, Delta, set_all, to_player_snapshot}
use realtime_game_server.Game.Snapshot.Client.{
  apply_delta, apply_changes, erase_all, SameView, IsTracked, Distinct,
}
use realtime_game_server.Game.Snapshot.RoundTrip.{kept-SameView, apply_delta-compute_delta}
use realtime_game_server.Game.Protocol.{ServerMessage}
use realtime_game_server.Game.Session.{
  Settings, GameSession, Event, snapshot, player_disconnected, current_snapshots, disconnects,
  visit_all, delta_events, should_full, publish, step,
}
use realtime_game_server.Game.Session.Loop.{visit_all_frame}
use realtime_game_server.Game.Session.Current.{
  shown, IsKeyed, lookup-set_all-current, current-Distinct, All-current,
}
use realtime_game_server.Game.Session.Invariant.{IsValid}
use realtime_game_server.Game.Session.TickInvariant.{visit_all-IsValid}

module _ {W : Type 0} where
  -- What a client does with a message.
  receive_message : ServerMessage W → Dict (PlayerSnapshot W) → Dict (PlayerSnapshot W)
  receive_message (ServerMessage.snapshot m) view = set_all m.players []
  receive_message (ServerMessage.delta m) view =
      apply_delta (record { changes = m.changes; removed = m.removed }) view
  receive_message _ view = view

  receive : Event W → Dict (PlayerSnapshot W) → Dict (PlayerSnapshot W)
  unfolding receive_message
  receive (snapshot m) view = receive_message m view
  receive (player_disconnected _) view = view

  unfoldable pub receive_all : List (Event W) → Dict (PlayerSnapshot W) → Dict (PlayerSnapshot W)
  unfolding receive
  receive_all [] view = view
  receive_all (e ∷ es) view = receive_all es (receive e view)

  -- A view that shows exactly the players of the session.
  abbrev pub Shows : Dict (PlayerSnapshot W) → GameSession W → Type 0
  Shows view s = (k : Key) → lookup k view ≡ shown (lookup k s.players)

  IsKeyed-AllEntries : (s : GameSession W) → IsValid s → IsKeyed s.players
  IsKeyed-AllEntries s v = values-All (λ k p. p.id ≡ k) s.players v.players_map v.keyed

  pub current-Shows : (s : GameSession W) → IsValid s → Shows (set_all (current_snapshots s) []) s
  unfolding current_snapshots
  current-Shows s v k = lookup-set_all-current k s.players v.players_map (IsKeyed-AllEntries s v)

  current_snapshots-Distinct : (s : GameSession W) → IsValid s → Distinct (current_snapshots s)
  unfolding current_snapshots
  current_snapshots-Distinct s v = current-Distinct s.players v.players_map (IsKeyed-AllEntries s v)

  current-IsTracked :
      (s : GameSession W) → IsValid s → All (IsTracked s.previous_snapshots) (current_snapshots s)
  unfolding current_snapshots to_player_snapshot
  current-IsTracked s v = All-current (IsTracked s.previous_snapshots) s.players (
      values-All (λ k p. IsTracked s.previous_snapshots (to_player_snapshot p)) s.players
        v.players_map (λ k p e q f. ground (arith, v.keyed k p, v.tracked k p q)))

  pub receive_all-disconnects :
      ⦃d : Double W⦄ (env : Settings W) (now : ℕ) (entries : Dict (RuntimePlayerState W))
      (es : List (Event W)) (view : Dict (PlayerSnapshot W))
      → receive_all (disconnects env now entries ++ es) view ≡ receive_all es view
  unfolding receive_all disconnects
  receive_all-disconnects env now [] es view = refl
  receive_all-disconnects env now ((k, p) ∷ entries) es view =
      ground (arith, receive_all-disconnects env now entries es view)

-- A delta that is not sent would have changed nothing.
empty_delta :
    {W : Type 0} (m : Delta W) (view : Dict (PlayerSnapshot W))
    → (length m.changes == 0) ≡ true
    → (length m.removed == 0) ≡ true
    → apply_delta m view ≡ view
unfolding apply_delta apply_changes erase_all
empty_delta m view hc hr = go m.changes m.removed hc hr
  where
    go :
        (cs : List _) (rs : List Key)
        → (length cs == 0) ≡ true
        → (length rs == 0) ≡ true
        → apply_changes cs (erase_all rs view) ≡ view
    go [] [] h k = refl
    go _ _ h k = ground arith

module _ {W : Type 0} ⦃d : Double W⦄ where
  pub receive_all-delta_events :
      (now tick : ℕ) (m : Delta W) (view : Dict (PlayerSnapshot W))
      → receive_all (delta_events now tick m) view ≡ apply_delta m view
  unfolding receive_all delta_events
  receive_all-delta_events now tick m view = ground (arith, empty_delta m view)

  pub publish_frame :
      (now : ℕ) (s : GameSession W)
      → ((publish now s).0.players ≡ s.players)
        × ((publish now s).0.pending_inputs ≡ s.pending_inputs)
        × ((publish now s).0.tick ≡ s.tick)
  unfolding publish
  publish_frame now s = ground arith

  -- The snapshots that a session keeps after a tick are those of its players.
  publish-previous :
      (now : ℕ) (s : GameSession W) → IsValid s → Shows (publish now s).0.previous_snapshots s
  unfolding publish
  publish-previous now s v k = elim (Bool-cases (should_full s)) [
    | inl full ↦ rw full (current-Shows s v k)
    | inr part ↦
        rw part (kept-SameView s.previous_snapshots (current_snapshots s) k ∙ current-Shows s v k)
  ]

  publish-IsValid : (now : ℕ) (s : GameSession W) → IsValid s → IsValid (publish now s).0
  publish-IsValid now s v =
      let frame = publish_frame now s in
      record {
        players_map = rw frame.0 v.players_map;
        keyed = λ k p e. v.keyed k p (rw frame.0 at e);
        queued = λ k. rw (frame.0, frame.1) (v.queued k);
        bounded = λ k q e. v.bounded k q (rw frame.1 at e);
        tracked = λ k p q e f.
            unfold to_player_snapshot in
            ground (arith, frame.0, publish-previous now s v k, v.keyed k p);
        known = λ k e. ground (arith, frame.0, publish-previous now s v k);
      }

  with_tick : (n : ℕ) (s : GameSession W) → IsValid s → IsValid (record s { tick = n })
  with_tick n s v = record {
    players_map = v.players_map;
    keyed = v.keyed;
    queued = v.queued;
    bounded = v.bounded;
    tracked = v.tracked;
    known = v.known;
  }

  pub visited-IsValid :
      (env : Settings W) (now : ℕ) (s : GameSession W)
      → IsValid s
      → IsValid (visit_all env now s.players (record s { tick = s.tick + 1 }))
  visited-IsValid env now s v =
      visit_all-IsValid env now (record s { tick = s.tick + 1 }) (with_tick (s.tick + 1) s v)

  -- A tick keeps the session valid.
  pub step-IsValid :
      (env : Settings W) (now : ℕ) (s : GameSession W) → IsValid s → IsValid (step env now s).0
  unfolding step
  step-IsValid env now s v = publish-IsValid now _ (visited-IsValid env now s v)

module _ {W : Type 0} ⦃d : Double W⦄ (o : IsOrdered W) where
  publish-Shows :
      (now : ℕ) (s : GameSession W) (view : Dict (PlayerSnapshot W))
      → IsValid s
      → SameView view s.previous_snapshots
      → Shows (receive_all (publish now s).1 view) s
  unfolding publish receive_all
  publish-Shows now s view v h k =
      let current = current_snapshots s in
      let previous = s.previous_snapshots in
      elim (Bool-cases (should_full s)) [
        | inl full ↦ rw full (current-Shows s v k)
        | inr part ↦ rw part (
            rw receive_all-delta_events (
              apply_delta-compute_delta o previous view current h (current_snapshots-Distinct s v)
                (current-IsTracked s v) k
              ∙ current-Shows s v k))
      ]

  -- In a valid session, a client whose view agrees with the snapshots that the session keeps shows
  -- after the tick's messages exactly the players of the session, each by its snapshot, and agrees
  -- again with the snapshots that the session keeps.
  pub step-Shows :
      (env : Settings W) (now : ℕ) (s : GameSession W) (view : Dict (PlayerSnapshot W))
      → IsValid s
      → SameView view s.previous_snapshots
      → let (s', events) = step env now s in
        Shows (receive_all events view) s'
        × SameView (receive_all events view) s'.previous_snapshots
  unfolding step
  step-Shows env now s view v h =
      let s₁ = visit_all env now s.players (record s { tick = s.tick + 1 }) in
      let v₁ = visited-IsValid env now s v in
      let kept_view = (visit_all_frame env now s.players (record s { tick = s.tick + 1 })).3 in
      let shows : Shows (receive_all (publish now s₁).1 view) s₁ =
        publish-Shows now s₁ view v₁ (rw kept_view h) in
      let frame = publish_frame now s₁ in
      (
        (λ k. rw (receive_all-disconnects, frame.0) (shows k)),
        (λ k. rw receive_all-disconnects (shows k ∙ sym (publish-previous now s₁ v₁ k))),
      )
