-- ===== src/Gateway/Tables.antt =====
-- The gateway reads the tables of the lobby and does not write them.
use realtime_game_server.Base.{ℕ, ◌≡◌, Option, inl, inr, Key, arith}
use realtime_game_server.Game.Double.{Double}
use realtime_game_server.Game.Protocol.{ClientMessage}
use realtime_game_server.Auth.Tokens.{AccessTokenPayload}
use realtime_game_server.Gateway.State.{SocketContext, Settings, World, Frame}
use realtime_game_server.Gateway.Connect.{handle_connection, replace_existing_socket, on_close}
use realtime_game_server.Gateway.Handlers.{enter, dispatch, on_message, tick}
use realtime_game_server.Gateway.Join.{join_session_cases}
use realtime_game_server.Gateway.Message.{on_message_cases}

module _ {W : Type 0} ⦃d : Double W⦄ (env : Settings W) (now : ℕ) (uuid socket : Key) where
  enter-lobby :
      (ctx : SocketContext) (room_id : Key) (w : World W)
      → (enter env now uuid socket ctx room_id w).world.lobby ≡ w.lobby
  unfolding enter
  enter-lobby ctx room_id w = ground arith

  dispatch-lobby :
      (ctx : SocketContext) (message : ClientMessage W) (w : World W)
      → (dispatch env now uuid socket ctx message w).world.lobby ≡ w.lobby
  unfolding dispatch
  dispatch-lobby ctx (ClientMessage.join_session room_id token) w =
      elim (join_session_cases env now uuid socket ctx room_id token w) [
        | inl same ↦ same.lobby
        | inr (_, (tokens, entered)) ↦
            rw entered (enter-lobby ctx room_id (record w { reconnect_tokens = tokens }))
      ]
  dispatch-lobby ctx (ClientMessage.input seq dt move look) w = ground arith
  dispatch-lobby ctx (ClientMessage.ping client_time) w = ground arith
  dispatch-lobby ctx ClientMessage.heartbeat w = ground arith
  dispatch-lobby ctx ClientMessage.request_snapshot w = ground arith

  pub on_message-lobby :
      (frame : Frame W) (w : World W)
      → (on_message env now uuid socket frame w).world.lobby ≡ w.lobby
  on_message-lobby frame w = elim (on_message_cases env now uuid socket frame w) [
    | inl same ↦ same.lobby
    | inr (ctx, message, counters, found, asked) ↦
        rw asked (dispatch-lobby ctx message (record w { counters = counters }))
  ]

  pub tick-lobby : (room_id : Key) (w : World W) → (tick env now room_id w).world.lobby ≡ w.lobby
  unfolding tick
  tick-lobby room_id w = ground arith

  pub handle_connection-lobby :
      (ip : Key) (token : Option AccessTokenPayload) (w : World W)
      → (handle_connection env now socket ip token w).world.lobby ≡ w.lobby
  unfolding handle_connection replace_existing_socket
  handle_connection-lobby ip token w = ground arith

pub on_close-lobby :
    {W : Type 0} (socket : Key) (w : World W) → (on_close socket w).world.lobby ≡ w.lobby
unfolding on_close
on_close-lobby socket w = ground arith
