-- ===== src/Gateway/Handlers.antt =====
-- Frames of src/infrastructure/websocket/gateway.ts: `onMessage`, `dispatch` and `joinSession`, and
-- the timer of a session.
use Prim.Native.Nat.{◌-◌}
use realtime_game_server.Base.{
  ℕ, ◌+◌, not, Option, none, some, List, [], ◌∷◌, ◌++◌, Key, ltb, ◌==◌, if◌then◌else◌, is_some, any,
}
use realtime_game_server.Base.Dict.{Dict, lookup, insert, erase}
use realtime_game_server.Base.Action.{ok, err}
use realtime_game_server.Game.Double.{Double}
use realtime_game_server.Game.Protocol.{ClientMessage, ServerMessage}
use realtime_game_server.Game.Session
use realtime_game_server.Game.Session.{GameSession}
use realtime_game_server.Game.Manager.{get_or_create}
use realtime_game_server.Lobby.Rooms.{is_active}
use realtime_game_server.Lobby.Service.{get_room}
use realtime_game_server.RateLimit.{consume}
use realtime_game_server.Gateway.State.{
  SocketContext, ReconnectEntry, reconnect_ttl_ms, Settings, World, Effect, Outcome, Parsed, Frame,
  max_payload, purge_expired_reconnect_tokens, is_good_reconnect, erase_opt, done, refuse,
}
use realtime_game_server.Gateway.Connect.{on_session, broadcast}

module _ {W : Type 0} ⦃d : Double W⦄ where
  -- the part of `joinSession` after its checks
  unfoldable pub enter :
      Settings W → ℕ → (uuid socket : Key) → SocketContext → Key → World W → Outcome W
  enter env now uuid socket ctx room_id w =
      let (session, sessions) = get_or_create env.game room_id w.sessions in
      let session' = (Session.add_player now ctx.player_id ctx.username session).1 in
      let entry : ReconnectEntry = record {
        player_id = ctx.player_id;
        room_id = room_id;
        expires_at = now + reconnect_ttl_ms;
      } in
      done
        (record w {
          sockets =
              insert socket (record ctx { room_id = some room_id; reconnect_token = some uuid })
                w.sockets;
          sessions = insert room_id session' sessions;
          subscribed_rooms =
              if any (λ r. r == room_id) w.subscribed_rooms
              then w.subscribed_rooms
              else w.subscribed_rooms ++ room_id ∷ [];
          reconnect_tokens = insert uuid entry (erase_opt ctx.reconnect_token w.reconnect_tokens);
        })
        (Effect.set_online ctx.player_id (some room_id)
          ∷ Effect.send socket (ServerMessage.joined room_id ctx.player_id session'.tick uuid)
          ∷ Effect.send socket (Session.build_full_snapshot now session')
          ∷ [])

  -- the checks on the room, then `enter`
  unfoldable pub join_room_session :
      Settings W → ℕ → (uuid socket : Key) → SocketContext → Key → World W → Outcome W
  join_room_session env now uuid socket ctx room_id w = elim (get_room room_id w.lobby).0 [
    | err e ↦ record { world = w; effects = []; rejected = some e }
    | ok room ↦
        if not (any (λ m. m.player_id == ctx.player_id) room.members)
        then refuse w socket "FORBIDDEN" "Not a member of this room"
        else if not (is_active room.status)
        then refuse w socket "ROOM_CLOSED" "Room is closed"
        else enter env now uuid socket ctx room_id w
  ]

  -- a reconnect token that is the empty text counts as `none`
  unfoldable pub join_session :
      Settings W
      → ℕ
      → (uuid socket : Key) → SocketContext
      → (room_id : Key) → Option Key
      → World W
      → Outcome W
  join_session env now uuid socket ctx room_id reconnect_token w =
      let tokens = purge_expired_reconnect_tokens now w.reconnect_tokens in
      elim reconnect_token [
        | none ↦
            join_room_session env now uuid socket ctx room_id
              (record w { reconnect_tokens = tokens })
        | some token ↦
            let w' : World W = record w { reconnect_tokens = erase token tokens } in
            if not (is_good_reconnect now ctx.player_id room_id (lookup token tokens))
            then refuse w' socket "INVALID_RECONNECT" "Reconnect token invalid"
            else join_room_session env now uuid socket ctx room_id w'
      ]

  -- the session that the connection has joined
  abbrev pub session_of : SocketContext → World W → Option (GameSession W)
  session_of ctx w = elim ctx.room_id [ none ↦ none | some r ↦ lookup r w.sessions ]

  abbrev pub with_session : (GameSession W → GameSession W) → SocketContext → World W → World W
  with_session f ctx w = record w { sessions = on_session f ctx.room_id w.sessions }

  unfoldable pub dispatch :
      Settings W → ℕ → (uuid socket : Key) → SocketContext → ClientMessage W → World W → Outcome W
  dispatch env now uuid socket ctx (ClientMessage.join_session room_id reconnect_token) w =
      join_session env now uuid socket ctx room_id reconnect_token w
  dispatch env now uuid socket ctx (ClientMessage.input seq dt move look) w =
      if not (is_some ctx.room_id)
      then refuse w socket "NOT_IN_SESSION" "Join a session first"
      else elim (session_of ctx w) [
        | none ↦ done w []
        | some session ↦
            let enqueue =
              Session.enqueue_input ctx.player_id
                (record { seq = seq; dt = dt; move = move; look = look }) in
            done (with_session (λ s. (enqueue s).1) ctx w) (
              if (enqueue session).0
              then Effect.send socket (ServerMessage.input_ack seq session.tick) ∷ []
              else [])
      ]
  dispatch env now uuid socket ctx (ClientMessage.ping client_time) w =
      done (with_session (Session.update_ping (now - client_time) ctx.player_id) ctx w)
        (Effect.send socket (ServerMessage.pong client_time now) ∷ [])
  dispatch env now uuid socket ctx ClientMessage.heartbeat w =
      done (with_session (Session.heartbeat now ctx.player_id) ctx w) (
        Effect.set_online ctx.player_id ctx.room_id
        ∷ Effect.send socket ServerMessage.heartbeat
        ∷ [])
  dispatch env now uuid socket ctx ClientMessage.request_snapshot w = elim (session_of ctx w) [
    | none ↦ done w []
    | some session ↦ done w (Effect.send socket (Session.build_full_snapshot now session) ∷ [])
  ]

  unfoldable pub on_message : Settings W → ℕ → (uuid socket : Key) → Frame W → World W → Outcome W
  on_message env now uuid socket frame w = elim (lookup socket w.sockets) [
    | none ↦ done w []
    | some ctx ↦
        if ltb max_payload frame.length
        then refuse w socket "PAYLOAD_TOO_LARGE" "Message too large"
        else let (verdict, counters) =
            consume now ctx.player_id env.ws_rate_limit_per_second 1 w.counters in
          let w' : World W = record w { counters = counters } in
          if not verdict.allowed
          then refuse w' socket "RATE_LIMIT" "Too many messages"
          else elim frame.parsed [
            | Parsed.malformed ↦ refuse w' socket "INVALID_JSON" "Malformed JSON"
            | Parsed.invalid ↦ refuse w' socket "VALIDATION_ERROR" "Invalid message payload"
            | Parsed.valid message ↦ dispatch env now uuid socket ctx message w'
          ]
  ]

  -- The listener that `joinSession` puts on a session passes its snapshots on; nothing listens to
  -- `playerDisconnected`.
  unfoldable pub on_events : Key → List (Session.Event W) → Dict SocketContext → List (Effect W)
  on_events room_id [] sockets = []
  on_events room_id (Session.Event.snapshot message ∷ events) sockets =
      broadcast room_id message sockets ++ on_events room_id events sockets
  on_events room_id (Session.Event.player_disconnected _ ∷ events) sockets =
      on_events room_id events sockets

  -- the interval timer of a room's session fires
  unfoldable pub tick : Settings W → ℕ → Key → World W → Outcome W
  tick env now room_id w = elim (lookup room_id w.sessions) [
    | none ↦ done w []
    | some session ↦
        let (session', events) = Session.step env.game now session in
        done (record w { sessions = insert room_id session' w.sessions })
          (if any (λ r. r == room_id) w.subscribed_rooms
            then on_events room_id events w.sockets
            else [])
  ]
