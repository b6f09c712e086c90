-- ===== src/Game/Session/Reach.antt =====
-- Any sequence of calls on a session, from its creation.
use realtime_game_server.Base.{ℕ, List, [], ◌∷◌, Key}
use realtime_game_server.Game.Double.{Double}
use realtime_game_server.Game.AntiCheat.{MovementInput}
use realtime_game_server.Game.Session
use realtime_game_server.Game.Session.{Settings, GameSession}
use realtime_game_server.Game.Session.Invariant.{
  IsValid, create-IsValid, start-IsValid, stop-IsValid, remove_player-IsValid,
  mark_disconnected-IsValid, heartbeat-IsValid, update_ping-IsValid, enqueue_input-IsValid,
  add_player-IsValid,
}
use realtime_game_server.Game.Session.Replica.{step-IsValid}

pub data Call (W : Type 0) : Type 0 where
  start stop : Call W
  add_player : (now : ℕ) → (id username : Key) → Call W
  remove_player mark_disconnected : (id : Key) → Call W
  enqueue_input : (id : Key) → MovementInput W → Call W
  heartbeat update_ping : (n : ℕ) → (id : Key) → Call W
  step : (now : ℕ) → Call W

module _ {W : Type 0} ⦃d : Double W⦄ (env : Settings W) where
  pub perform : Call W → GameSession W → GameSession W
  perform start s = Session.start env s
  perform stop s = Session.stop s
  perform (add_player now id username) s = (Session.add_player now id username s).1
  perform (remove_player id) s = Session.remove_player id s
  perform (mark_disconnected id) s = (Session.mark_disconnected id s).0
  perform (enqueue_input id input) s = (Session.enqueue_input id input s).1
  perform (heartbeat now id) s = Session.heartbeat now id s
  perform (update_ping n id) s = Session.update_ping n id s
  perform (step now) s = (Session.step env now s).0

  pub run : List (Call W) → GameSession W → GameSession W
  run [] s = s
  run (call ∷ calls) s = run calls (perform call s)

  perform-IsValid : (call : Call W) (s : GameSession W) → IsValid s → IsValid (perform call s)
  unfolding perform
  perform-IsValid start s v = start-IsValid env s v
  perform-IsValid stop s v = stop-IsValid s v
  perform-IsValid (add_player now id username) s v = add_player-IsValid now id username s v
  perform-IsValid (remove_player id) s v = remove_player-IsValid id s v
  perform-IsValid (mark_disconnected id) s v = mark_disconnected-IsValid id s v
  perform-IsValid (enqueue_input id input) s v = enqueue_input-IsValid id input s v
  perform-IsValid (heartbeat now id) s v = heartbeat-IsValid now id s v
  perform-IsValid (update_ping n id) s v = update_ping-IsValid n id s v
  perform-IsValid (step now) s v = step-IsValid env now s v

  run_from-IsValid : (calls : List (Call W)) (s : GameSession W) → IsValid s → IsValid (run calls s)
  unfolding run
  run_from-IsValid [] s v = v
  run_from-IsValid (call ∷ calls) s v =
      run_from-IsValid calls (perform call s) (perform-IsValid call s v)

  -- Whatever is called on a session after its creation, ticks included, players stand under their
  -- own identifier, exactly the players have a queue, no queue holds more than 40 inputs, and the
  -- snapshots that are kept belong to players and have their names.
  pub run-IsValid :
      (room_id : Key) (calls : List (Call W)) → IsValid (run calls (Session.create room_id))
  run-IsValid room_id calls =
      run_from-IsValid calls (Session.create room_id) (create-IsValid room_id)
