-- ===== src/Presence/Handlers.antt =====
-- Whom the handlers of the gateway set online, and which connections they keep.
use realtime_game_server.Base.{
  ℕ, ◌≡◌, refl, Option, none, some, List, [], ◌∷◌, ◌++◌, Key, ◌==◌, ltb, arith, inl, inr,
  Bool-cases, Option-cases, any,
}
use realtime_game_server.Base.Dict.{Dict, lookup}
use realtime_game_server.Game.Double.{Double}
use realtime_game_server.Game.Session as Session
use realtime_game_server.Game.Protocol.{ClientMessage, ServerMessage}
use realtime_game_server.Lobby.Service.{get_room}
use realtime_game_server.RateLimit.{consume}
use realtime_game_server.Gateway.State.{
  SocketContext, Settings, World, Effect, Frame, max_payload, purge_expired_reconnect_tokens,
  is_good_reconnect,
}
use realtime_game_server.Gateway.Connect.{broadcast}
use realtime_game_server.Gateway.Handlers.{
  enter, join_room_session, join_session, dispatch, on_message, on_events, tick,
}
use realtime_game_server.Gateway.Join.{Result-cases, join_session_cases}
use realtime_game_server.Gateway.Message.{Parsed-cases, on_message_cases}
use realtime_game_server.Presence.Effects.{AreOf}

module _ {W : Type 0} where
  pub append-AreOf :
      (p : Key) (es fs : List (Effect W)) → AreOf p es → AreOf p fs → AreOf p (es ++ fs)
  append-AreOf p [] fs a b = b
  append-AreOf p (Effect.set_online _ _ ∷ es) fs (e, a) b = (e, append-AreOf p es fs a b)
  append-AreOf p (Effect.set_offline _ ∷ es) fs a b = append-AreOf p es fs a b
  append-AreOf p (Effect.send _ _ ∷ es) fs a b = append-AreOf p es fs a b
  append-AreOf p (Effect.close _ _ ∷ es) fs a b = append-AreOf p es fs a b

  broadcast-AreOf :
      (p room_id : Key) (message : ServerMessage W) (sockets : Dict SocketContext)
      → AreOf p (broadcast room_id message sockets)
  unfolding broadcast
  broadcast-AreOf p room_id message [] = tt
  broadcast-AreOf p room_id message ((socket, ctx) ∷ sockets) =
      ground (arith, broadcast-AreOf p room_id message sockets)

module _ {W : Type 0} ⦃d : Double W⦄ where
  on_events-AreOf :
      (p room_id : Key) (events : List (Session.Event W)) (sockets : Dict SocketContext)
      → AreOf p (on_events room_id events sockets)
  unfolding on_events
  on_events-AreOf p room_id [] sockets = tt
  on_events-AreOf p room_id (Session.Event.snapshot message ∷ events) sockets =
      append-AreOf p (broadcast room_id message sockets) (on_events room_id events sockets)
        (broadcast-AreOf p room_id message sockets) (on_events-AreOf p room_id events sockets)
  on_events-AreOf p room_id (Session.Event.player_disconnected _ ∷ events) sockets =
      on_events-AreOf p room_id events sockets

  pub tick_by_player :
      (env : Settings W) (now : ℕ) (room_id : Key) (w : World W)
      → (tick env now room_id w).world.sockets_by_player ≡ w.sockets_by_player
  unfolding tick
  tick_by_player env now room_id w = ground arith

  pub tick-AreOf :
      (p : Key) (env : Settings W) (now : ℕ) (room_id : Key) (w : World W)
      → AreOf p (tick env now room_id w).effects
  unfolding tick
  tick-AreOf p env now room_id w = elim (Option-cases (lookup room_id w.sessions)) [
    | inl absent ↦ rw (absent, tick) tt
    | inr (s, found) ↦ elim (Bool-cases (any (λ r. r == room_id) w.subscribed_rooms)) [
      | inl heard ↦ rw (found, heard, tick) (on_events-AreOf p room_id _ w.sockets)
      | inr unheard ↦ rw (found, unheard, tick) tt
    ]
  ]

module _ {W : Type 0} ⦃d : Double W⦄ (env : Settings W) (now : ℕ) (uuid socket : Key)
    (ctx : SocketContext) where
  join_room_session-AreOf :
      (room_id : Key) (w : World W)
      → AreOf ctx.player_id (join_room_session env now uuid socket ctx room_id w).effects
  unfolding join_room_session enter
  join_room_session-AreOf room_id w = elim (Result-cases (get_room room_id w.lobby).0) [
    | inl (e, bad) ↦ rw (bad, join_room_session) tt
    | inr (room, found) ↦ rw (found, join_room_session) (ground arith)
  ]

  join_session-AreOf :
      (room_id : Key) (token : Option Key) (w : World W)
      → AreOf ctx.player_id (join_session env now uuid socket ctx room_id token w).effects
  unfolding join_session
  join_session-AreOf room_id none w = join_room_session-AreOf room_id _
  join_session-AreOf room_id (some token) w =
      let tokens = purge_expired_reconnect_tokens now w.reconnect_tokens in
      elim (Bool-cases (is_good_reconnect now ctx.player_id room_id (lookup token tokens))) [
        | inr bad ↦ rw bad tt
        | inl good ↦ rw good (join_room_session-AreOf room_id _)
      ]

  dispatch-AreOf :
      (message : ClientMessage W) (w : World W)
      → AreOf ctx.player_id (dispatch env now uuid socket ctx message w).effects
  unfolding dispatch
  dispatch-AreOf (ClientMessage.join_session room_id token) w = join_session-AreOf room_id token w
  dispatch-AreOf (ClientMessage.input seq dt move look) w = ground arith
  dispatch-AreOf (ClientMessage.ping client_time) w = tt
  dispatch-AreOf ClientMessage.heartbeat w = (refl, tt)
  dispatch-AreOf ClientMessage.request_snapshot w = ground arith

  dispatch_by_player :
      (message : ClientMessage W) (w : World W)
      → (dispatch env now uuid socket ctx message w).world.sockets_by_player ≡ w.sockets_by_player
  unfolding dispatch
  dispatch_by_player (ClientMessage.join_session room_id token) w =
      elim (join_session_cases env now uuid socket ctx room_id token w) [
        | inl same ↦ same.sockets_by_player
        | inr (_, (tokens, entered)) ↦ rw entered (unfold enter in refl)
      ]
  dispatch_by_player (ClientMessage.input seq dt move look) w = ground arith
  dispatch_by_player (ClientMessage.ping client_time) w = refl
  dispatch_by_player ClientMessage.heartbeat w = refl
  dispatch_by_player ClientMessage.request_snapshot w = ground arith

  pub on_message-AreOf :
      (frame : Frame W) (w : World W)
      → lookup socket w.sockets ≡ some ctx
      → AreOf ctx.player_id (on_message env now uuid socket frame w).effects
  unfolding on_message
  on_message-AreOf frame w found = elim (Bool-cases (ltb max_payload frame.length)) [
    | inl large ↦ rw (found, large, on_message) tt
    | inr small ↦
        let used = consume now ctx.player_id env.ws_rate_limit_per_second 1 w.counters in
        elim (Bool-cases used.0.allowed) [
          | inr limited ↦ rw (found, small, limited, on_message) tt
          | inl allowed ↦ elim (Parsed-cases frame.parsed) [
            | inl (inl bad) ↦ rw (found, small, allowed, bad, on_message) tt
            | inl (inr bad) ↦ rw (found, small, allowed, bad, on_message) tt
            | inr (m, good) ↦ rw (found, small, allowed, good, on_message) (dispatch-AreOf m _)
          ]
        ]
  ]

module _ {W : Type 0} ⦃d : Double W⦄ (env : Settings W) (now : ℕ) (uuid socket : Key)
    (frame : Frame W) (w : World W) where
  pub on_message_by_player :
      (on_message env now uuid socket frame w).world.sockets_by_player ≡ w.sockets_by_player
  on_message_by_player = elim (on_message_cases env now uuid socket frame w) [
    | inl same ↦ same.sockets_by_player
    | inr (ctx, message, counters, found, asked) ↦
        rw asked (dispatch_by_player env now uuid socket ctx message _)
  ]

  pub on_message_unknown :
      lookup socket w.sockets ≡ none → (on_message env now uuid socket frame w).effects ≡ []
  unfolding on_message
  on_message_unknown absent = rw (absent, on_message) refl
