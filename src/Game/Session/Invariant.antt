-- ===== src/Game/Session/Invariant.antt =====
-- The well-formedness of a session, under its operations.
use realtime_game_server.Base.{
  ℕ, ◌≤◌, ◌≡◌, refl, true, none, some, List, [], ◌∷◌, ◌++◌, inl, inr, arith, Key, leb,
  if◌then◌else◌, is_some, length, tail, length-append, Option-cases,
}
use realtime_game_server.Base.Dict.{
  lookup, insert, lookup-insert, lookup-erase, IsMap, insert-IsMap, erase-IsMap,
}
use realtime_game_server.Game.Double.{Double}
use realtime_game_server.Game.AntiCheat.{RuntimePlayerState, MovementInput, create_runtime_player}
use realtime_game_server.Game.Snapshot.{PlayerSnapshot}
use realtime_game_server.Game.Session.{
  Settings, GameSession, queue_limit, create, start, stop, remove_player, update_player,
  mark_disconnected, enqueue_input, heartbeat, update_ping, add_player,
}

-- Players stand under their own identifier, exactly the players have a queue, no queue is longer
-- than its limit, and a snapshot that is kept belongs to a player and has its name.
pub record IsValid {W : Type 0} (s : GameSession W) : Type 0 where
  pub players_map : IsMap s.players
  pub keyed : (k : Key) (p : RuntimePlayerState W) → lookup k s.players ≡ some p → p.id ≡ k
  pub queued : (k : Key) → is_some (lookup k s.pending_inputs) ≡ is_some (lookup k s.players)
  pub bounded :
      (k : Key) (q : List (MovementInput W))
      → lookup k s.pending_inputs ≡ some q
      → length q ≤ queue_limit
  pub tracked :
      (k : Key) (p : RuntimePlayerState W) (q : PlayerSnapshot W)
      → lookup k s.players ≡ some p
      → lookup k s.previous_snapshots ≡ some q
      → (q.id ≡ k) × (q.username ≡ p.username)
  pub known :
      (k : Key)
      → is_some (lookup k s.previous_snapshots) ≡ true
      → is_some (lookup k s.players) ≡ true

module _ {W : Type 0} where
  pub create-IsValid : (room_id : Key) → IsValid {W = W} (create room_id)
  unfolding create lookup
  create-IsValid room_id = record {
    players_map = tt;
    keyed = λ k p e. ground arith;
    queued = λ k. refl;
    bounded = λ k q e. ground arith;
    tracked = λ k p q e f. ground arith;
    known = λ k e. ground arith;
  }

  pub start-IsValid : (env : Settings W) (s : GameSession W) → IsValid s → IsValid (start env s)
  unfolding start
  start-IsValid env s v = record {
    players_map = ground (arith, v.players_map);
    keyed = λ k p e. ground (arith, v.keyed k p);
    queued = λ k. ground (arith, v.queued k);
    bounded = λ k q e. ground (arith, v.bounded k q);
    tracked = λ k p q e f. ground (arith, v.tracked k p q);
    known = λ k e. ground (arith, v.known k);
  }

  pub stop-IsValid : (s : GameSession W) → IsValid s → IsValid (stop s)
  unfolding stop
  stop-IsValid s v = record {
    players_map = ground (arith, v.players_map);
    keyed = λ k p e. ground (arith, v.keyed k p);
    queued = λ k. ground (arith, v.queued k);
    bounded = λ k q e. ground (arith, v.bounded k q);
    tracked = λ k p q e f. ground (arith, v.tracked k p q);
    known = λ k e. ground (arith, v.known k);
  }

  pub remove_player-IsValid :
      (id : Key) (s : GameSession W) → IsValid s → IsValid (remove_player id s)
  unfolding remove_player
  remove_player-IsValid id s v = record {
    players_map = erase-IsMap id s.players v.players_map;
    keyed = λ k p e. ground (arith, lookup-erase id k s.players, v.keyed k p);
    queued = λ k.
        ground (arith, lookup-erase id k s.players, lookup-erase id k s.pending_inputs, v.queued k);
    bounded = λ k q e. ground (arith, lookup-erase id k s.pending_inputs, v.bounded k q);
    tracked = λ k p q e f. ground (
      arith,
      lookup-erase id k s.players,
      lookup-erase id k s.previous_snapshots,
      v.tracked k p q,
    );
    known = λ k e.
        ground
          (arith, lookup-erase id k s.players, lookup-erase id k s.previous_snapshots, v.known k);
  }

  -- An operation that rewrites one player and keeps its identifier and its name.
  put_player-IsValid :
      (id : Key) (p p' : RuntimePlayerState W) (s : GameSession W)
      → lookup id s.players ≡ some p
      → p'.id ≡ p.id
      → p'.username ≡ p.username
      → IsValid s
      → IsValid (record s { players = insert id p' s.players })
  put_player-IsValid id p p' s found hi hu v = record {
    players_map = insert-IsMap id p' s.players v.players_map;
    keyed =
        λ k q e. ground (arith, lookup-insert id k p' s.players, v.keyed k q, v.keyed id p found);
    queued = λ k. ground (arith, lookup-insert id k p' s.players, v.queued k);
    bounded = v.bounded;
    tracked = λ k q r e f.
        ground (arith, lookup-insert id k p' s.players, v.tracked k q r, v.tracked id p r found);
    known = λ k e. ground (arith, lookup-insert id k p' s.players, v.known k);
  }

  update_player-IsValid :
      (f : RuntimePlayerState W → RuntimePlayerState W) (id : Key) (s : GameSession W)
      → ((p : RuntimePlayerState W) → ((f p).id ≡ p.id) × ((f p).username ≡ p.username))
      → IsValid s
      → IsValid (update_player f id s)
  update_player-IsValid f id s h v = elim (Option-cases (lookup id s.players)) [
    | inl missing ↦ rw (missing, update_player) v
    | inr (p, found) ↦
        rw (found, update_player) (put_player-IsValid id p (f p) s found (h p).0 (h p).1 v)
  ]

  pub mark_disconnected-IsValid :
      (id : Key) (s : GameSession W) → IsValid s → IsValid (mark_disconnected id s).0
  unfolding mark_disconnected
  mark_disconnected-IsValid id s v = update_player-IsValid _ id s (λ p. (refl, refl)) v

  pub heartbeat-IsValid :
      (now : ℕ) (id : Key) (s : GameSession W) → IsValid s → IsValid (heartbeat now id s)
  unfolding heartbeat
  heartbeat-IsValid now id s v = update_player-IsValid _ id s (λ p. (refl, refl)) v

  pub update_ping-IsValid :
      (n : ℕ) (id : Key) (s : GameSession W) → IsValid s → IsValid (update_ping n id s)
  unfolding update_ping
  update_ping-IsValid n id s v = update_player-IsValid _ id s (λ p. (refl, refl)) v

  -- A push to a queue at its limit drops the oldest input first.
  length-push :
      (input : MovementInput W) (queue : List (MovementInput W))
      → length queue ≤ queue_limit
      → length ((if leb queue_limit (length queue) then tail queue else queue) ++ input ∷ [])
        ≤ queue_limit
  length-push input [] h = omega arith
  length-push input (i ∷ queue) h =
      ground (arith, length-append queue (input ∷ []), length-append (i ∷ queue) (input ∷ []))

  pub enqueue_input-IsValid :
      (id : Key) (input : MovementInput W) (s : GameSession W)
      → IsValid s
      → IsValid (enqueue_input id input s).1
  unfolding enqueue_input
  enqueue_input-IsValid id input s v = elim (Option-cases (lookup id s.pending_inputs)) [
    | inl missing ↦ rw (missing, enqueue_input) v
    | inr (queue, found) ↦
        let pushed : List (MovementInput W) =
          (if leb queue_limit (length queue) then tail queue else queue) ++ input ∷ [] in
        rw (found, enqueue_input)
          (record {
            players_map = v.players_map;
            keyed = v.keyed;
            queued = λ k. ground (arith, lookup-insert id k pushed s.pending_inputs, v.queued k);
            bounded = λ k q e. ground (
              arith,
              lookup-insert id k pushed s.pending_inputs,
              v.bounded k q,
              length-push input queue (v.bounded id queue found),
            );
            tracked = v.tracked;
            known = v.known;
          })
  ]

module _ {W : Type 0} ⦃d : Double W⦄ where
  -- a player that the session does not know comes with an empty queue and no snapshot
  new_player-IsValid :
      (id : Key) (p : RuntimePlayerState W) (s : GameSession W)
      → lookup id s.players ≡ none
      → p.id ≡ id
      → IsValid s
      → IsValid (record s {
        players = insert id p s.players;
        pending_inputs = insert id [] s.pending_inputs;
      })
  new_player-IsValid id p s missing hi v = record {
    players_map = insert-IsMap id p s.players v.players_map;
    keyed = λ k q e. ground (arith, lookup-insert id k p s.players, v.keyed k q);
    queued = λ k.
        ground (
          arith,
          lookup-insert id k p s.players,
          lookup-insert id k [] s.pending_inputs,
          v.queued k,
        );
    bounded = λ k q e. ground (arith, lookup-insert id k [] s.pending_inputs, v.bounded k q);
    tracked =
        λ k q r e f. ground (arith, lookup-insert id k p s.players, v.tracked k q r, v.known k);
    known = λ k e. ground (arith, lookup-insert id k p s.players, v.known k);
  }

  pub add_player-IsValid :
      (now : ℕ) (id username : Key) (s : GameSession W)
      → IsValid s
      → IsValid (add_player now id username s).1
  unfolding add_player create_runtime_player
  add_player-IsValid now id username s v = elim (Option-cases (lookup id s.players)) [
    | inl missing ↦ rw (missing, add_player) (new_player-IsValid id _ s missing refl v)
    | inr (p, found) ↦ rw (found, add_player) (put_player-IsValid id p _ s found refl refl v)
  ]
