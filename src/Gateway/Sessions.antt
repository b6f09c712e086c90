-- ===== src/Gateway/Sessions.antt =====
-- The sessions that the gateway works on.
use realtime_game_server.Base.{
  ℕ, ◌≡◌, Option, none, some, inl, inr, Key, ◌==◌, arith, Option-cases, Bool-cases,
}
use realtime_game_server.Base.Dict.{Dict, lookup, insert, lookup-insert}
use realtime_game_server.Game.Double.{Double}
use realtime_game_server.Game.Protocol.{ClientMessage}
use realtime_game_server.Game.AntiCheat.{MovementInput}
use realtime_game_server.Game.Session
use realtime_game_server.Game.Session.{GameSession}
use realtime_game_server.Game.Session.Invariant.{
  IsValid, create-IsValid, start-IsValid, mark_disconnected-IsValid, heartbeat-IsValid,
  update_ping-IsValid, enqueue_input-IsValid, add_player-IsValid,
}
use realtime_game_server.Game.Session.Replica.{step-IsValid}
use realtime_game_server.Game.Manager.{get_or_create}
use realtime_game_server.Gateway.State.{SocketContext, Settings, World, Frame}
use realtime_game_server.Gateway.Connect.{on_session, on_close}
use realtime_game_server.Gateway.Handlers.{enter, dispatch, on_message, tick}
use realtime_game_server.Gateway.Join.{join_session_cases}
use realtime_game_server.Gateway.Message.{on_message_cases}

-- Every session of the map is valid.
pub record AreSessions {W : Type 0} (sessions : Dict (GameSession W)) : Type 0 where
  pub at : (k : Key) (s : GameSession W) → lookup k sessions ≡ some s → IsValid s

module _ {W : Type 0} where
  pub insert-AreSessions :
      (k : Key) (s : GameSession W) (sessions : Dict (GameSession W))
      → IsValid s
      → AreSessions sessions
      → AreSessions (insert k s sessions)
  insert-AreSessions k s sessions h v = record {
    at = λ j t e. elim (Bool-cases (k == j)) [
      | inl same ↦ let i : s ≡ t = ground (arith, lookup-insert k j s sessions) in rw (← i) h
      | inr other ↦ v.at j t (ground (arith, lookup-insert k j s sessions))
    ];
  }

  pub on_session-AreSessions :
      (f : GameSession W → GameSession W) (room_id : Option Key) (sessions : Dict (GameSession W))
      → ((s : GameSession W) → IsValid s → IsValid (f s))
      → AreSessions sessions
      → AreSessions (on_session f room_id sessions)
  on_session-AreSessions f none sessions h v = v
  on_session-AreSessions f (some k) sessions h v = elim (Option-cases (lookup k sessions)) [
    | inl absent ↦ rw (absent, on_session) v
    | inr (s, found) ↦
        rw (found, on_session) (insert-AreSessions k (f s) sessions (h s (v.at k s found)) v)
  ]

  pub on_close-AreSessions :
      (socket : Key) (w : World W)
      → AreSessions w.sessions
      → AreSessions (on_close socket w).world.sessions
  unfolding on_close
  on_close-AreSessions socket w v = elim (Option-cases (lookup socket w.sockets)) [
    | inl absent ↦ rw (absent, on_close) v
    | inr (ctx, found) ↦
        rw (found, on_close)
          (on_session-AreSessions (λ s. (Session.mark_disconnected ctx.player_id s).0) ctx.room_id
            w.sessions (λ s h. mark_disconnected-IsValid ctx.player_id s h) v)
  ]

module _ {W : Type 0} ⦃d : Double W⦄ (env : Settings W) (now : ℕ) (uuid socket : Key) where
  enter-AreSessions :
      (ctx : SocketContext) (room_id : Key) (w : World W)
      → AreSessions w.sessions
      → AreSessions (enter env now uuid socket ctx room_id w).world.sessions
  unfolding enter get_or_create
  enter-AreSessions ctx room_id w v = elim (Option-cases (lookup room_id w.sessions)) [
    | inl absent ↦
        let new = Session.start env.game (Session.create room_id) in
        let new_valid = start-IsValid env.game (Session.create room_id) (create-IsValid room_id) in
        rw (absent, enter, get_or_create)
          (insert-AreSessions room_id (Session.add_player now ctx.player_id ctx.username new).1
            (insert room_id new w.sessions)
            (add_player-IsValid now ctx.player_id ctx.username new new_valid)
            (insert-AreSessions room_id new w.sessions new_valid v))
    | inr (s, found) ↦
        rw (found, enter, get_or_create)
          (insert-AreSessions room_id (Session.add_player now ctx.player_id ctx.username s).1
            w.sessions (add_player-IsValid now ctx.player_id ctx.username s (v.at room_id s found))
            v)
  ]

  dispatch-AreSessions :
      (ctx : SocketContext) (message : ClientMessage W) (w : World W)
      → AreSessions w.sessions
      → AreSessions (dispatch env now uuid socket ctx message w).world.sessions
  unfolding dispatch
  dispatch-AreSessions ctx (ClientMessage.join_session room_id token) w v =
      elim (join_session_cases env now uuid socket ctx room_id token w) [
        | inl same ↦ rw same.sessions v
        | inr (_, (tokens, entered)) ↦
            rw entered (enter-AreSessions ctx room_id (record w { reconnect_tokens = tokens }) v)
      ]
  dispatch-AreSessions ctx (ClientMessage.input seq dt move look) w v =
      let input : MovementInput W = record { seq = seq; dt = dt; move = move; look = look } in
      ground (
        arith,
        v,
        on_session-AreSessions (λ s. (Session.enqueue_input ctx.player_id input s).1) ctx.room_id
            w.sessions (λ s h. enqueue_input-IsValid ctx.player_id input s h) v,
      )
  dispatch-AreSessions ctx (ClientMessage.ping client_time) w v =
      on_session-AreSessions _ ctx.room_id w.sessions
        (λ s h. update_ping-IsValid _ ctx.player_id s h) v
  dispatch-AreSessions ctx ClientMessage.heartbeat w v =
      on_session-AreSessions _ ctx.room_id w.sessions
        (λ s h. heartbeat-IsValid now ctx.player_id s h) v
  dispatch-AreSessions ctx ClientMessage.request_snapshot w v = ground (arith, v)

  pub on_message-AreSessions :
      (frame : Frame W) (w : World W)
      → AreSessions w.sessions
      → AreSessions (on_message env now uuid socket frame w).world.sessions
  on_message-AreSessions frame w v = elim (on_message_cases env now uuid socket frame w) [
    | inl same ↦ rw same.sessions v
    | inr (ctx, message, counters, found, asked) ↦
        rw asked (dispatch-AreSessions ctx message (record w { counters = counters }) v)
  ]

  pub tick-AreSessions :
      (room_id : Key) (w : World W)
      → AreSessions w.sessions
      → AreSessions (tick env now room_id w).world.sessions
  unfolding tick
  tick-AreSessions room_id w v = elim (Option-cases (lookup room_id w.sessions)) [
    | inl absent ↦ rw (absent, tick) v
    | inr (s, found) ↦
        rw (found, tick)
          (insert-AreSessions room_id (Session.step env.game now s).0 w.sessions
            (step-IsValid env.game now s (v.at room_id s found)) v)
  ]
