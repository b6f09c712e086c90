-- ===== src/Gateway/Connect.antt =====
-- Connections of src/infrastructure/websocket/gateway.ts: `handleConnection`, `replaceExistingSocket`,
-- `onClose` and `broadcast`.
use realtime_game_server.Base.{
  ℕ, not, Option, none, some, List, [], ◌∷◌, ◌++◌, Key, ◌==◌, if◌then◌else◌,
}
use realtime_game_server.Base.Dict.{Dict, lookup, insert, erase}
use realtime_game_server.Game.Protocol.{ServerMessage}
use realtime_game_server.Game.Session
use realtime_game_server.Game.Session.{GameSession}
use realtime_game_server.Auth.Tokens.{AccessTokenPayload}
use realtime_game_server.RateLimit.{consume}
use realtime_game_server.Gateway.State.{SocketContext, Settings, World, Effect, Outcome, done}

module _ {W : Type 0} where
  unfoldable pub replace_existing_socket : Key → World W → World W × List (Effect W)
  replace_existing_socket player_id w = elim (lookup player_id w.sockets_by_player) [
    | none ↦ (w, [])
    | some existing ↦ (
      record w {
        sockets = erase existing w.sockets;
        sockets_by_player = erase player_id w.sockets_by_player;
      },
      Effect.close existing 4000 ∷ [],
    )
  ]

  -- `token` is what `extractToken` and `verifyAccessToken` make of the request, `none` where one of
  -- them throws; Gateway/Early handles the frames that came before
  unfoldable pub handle_connection :
      Settings W → ℕ → (socket ip : Key) → Option AccessTokenPayload → World W → Outcome W
  handle_connection env now socket ip token w =
      let (verdict, counters) =
        consume now ip env.ws_connect_rate_limit_per_minute 60 w.connect_counters in
      let w₁ : World W = record w { connect_counters = counters } in
      if not verdict.allowed then done w₁ (Effect.close socket 1008 ∷ []) else elim token [
        | none ↦ done w₁ (
            Effect.send socket
              (ServerMessage.error "UNAUTHORIZED" "Invalid or missing access token")
            ∷ Effect.close socket 1008
            ∷ [])
        | some payload ↦
            let (w₂, closed) = replace_existing_socket payload.player_id w₁ in
            let ctx : SocketContext = record {
              user_id = payload.user_id;
              player_id = payload.player_id;
              username = payload.username;
              room_id = none;
              reconnect_token = none;
            } in
            done
              (record w₂ {
                sockets = insert socket ctx w₂.sockets;
                sockets_by_player = insert payload.player_id socket w₂.sockets_by_player;
              })
              (closed ++ Effect.set_online payload.player_id none ∷ [])
      ]

  -- a session of the map is changed in place, if it is there
  abbrev pub on_session :
      (GameSession W → GameSession W) → Option Key → Dict (GameSession W) → Dict (GameSession W)
  on_session f none sessions = sessions
  on_session f (some room_id) sessions = elim (lookup room_id sessions) [
    | none ↦ sessions
    | some session ↦ insert room_id (f session) sessions
  ]

  unfoldable pub on_close : Key → World W → Outcome W
  on_close socket w = elim (lookup socket w.sockets) [
    | none ↦ done w []
    | some ctx ↦
        done
          (record w {
            sockets = erase socket w.sockets;
            sockets_by_player = elim (lookup ctx.player_id w.sockets_by_player) [
              | none ↦ w.sockets_by_player
              | some s ↦
                  if s == socket
                  then erase ctx.player_id w.sockets_by_player
                  else w.sockets_by_player
            ];
            sessions =
                on_session (λ session. (Session.mark_disconnected ctx.player_id session).0)
                  ctx.room_id w.sessions;
          })
          (Effect.set_offline ctx.player_id ∷ [])
  ]

  unfoldable pub broadcast : Key → ServerMessage W → Dict SocketContext → List (Effect W)
  broadcast room_id message [] = []
  broadcast room_id message ((socket, ctx) ∷ sockets) =
      let rest = broadcast room_id message sockets in
      elim ctx.room_id [
        | none ↦ rest
        | some r ↦ if r == room_id then Effect.send socket message ∷ rest else rest
      ]
