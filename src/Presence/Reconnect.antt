-- ===== src/Presence/Reconnect.antt =====
-- A player that connects again while its old socket is still open.
use realtime_game_server.Base.{ℕ, ◌≤◌, ◌<◌, ◌+◌, ◌≡◌, refl, true, none, some, Key, arith, [], ◌∷◌}
use realtime_game_server.Base.Dict.{lookup, erase, lookup-insert, lookup-erase}
use realtime_game_server.Auth.Tokens.{AccessTokenPayload}
use realtime_game_server.RateLimit.{consume}
use realtime_game_server.Gateway.State.{SocketContext, Settings, World, Effect}
use realtime_game_server.Gateway.Connect.{replace_existing_socket, handle_connection, on_close}
use realtime_game_server.Presence.{Payload, is_online}
use realtime_game_server.Presence.Commands.{Redis, IsRedis}
use realtime_game_server.Presence.Effects.{perform, perform_all, is_online-set_online}

module _ {W : Type 0} (env : Settings W) (t : ℕ) (socket ip : Key) (payload : AccessTokenPayload)
    (w : World W) where
  module _ (old : Key) (ctx : SocketContext)
      (open' : lookup payload.player_id w.sockets_by_player ≡ some old)
      (known : lookup old w.sockets ≡ some ctx) (new : lookup socket w.sockets ≡ none)
      (allowed : (consume t ip env.ws_connect_rate_limit_per_minute 60 w.connect_counters).0.allowed
        ≡ true) where
    reconnect_effects :
        (handle_connection env t socket ip (some payload) w).effects
        ≡ Effect.close old 4000 ∷ Effect.set_online payload.player_id none ∷ []
    unfolding handle_connection replace_existing_socket
    reconnect_effects = rw (allowed, open', handle_connection, replace_existing_socket) refl

    old_gone : lookup old (handle_connection env t socket ip (some payload) w).world.sockets ≡ none
    unfolding handle_connection replace_existing_socket
    old_gone =
        let ctx' : SocketContext = record {
          user_id = payload.user_id;
          player_id = payload.player_id;
          username = payload.username;
          room_id = none;
          reconnect_token = none;
        } in
        rw (allowed, open', handle_connection, replace_existing_socket)
          (ground (
            arith,
            new,
            known,
            lookup-insert socket old ctx' (erase old w.sockets),
            lookup-erase old old w.sockets,
          ))

    -- If a player with an open socket connects again with a new one and is let in, the close of the
    -- old socket afterwards changes nothing of the gateway, and the player is online after it until
    -- 60 seconds after the connection.
    pub reconnect-on_close :
        {Text S : Type 0} (redis : Redis Text S) (stringify : Payload → Text) (closed now : ℕ)
        (s : S)
        → IsRedis redis
        → t ≤ closed
        → closed ≤ now
        → now < t + 60_000
        → let entered = handle_connection env t socket ip (some payload) w in
          let after = on_close old entered.world in
          (after.world ≡ entered.world)
          × (is_online redis now payload.player_id (
                perform_all redis stringify closed after.effects
                  (perform_all redis stringify t entered.effects s))
              ≡ true)
    unfolding on_close perform_all perform
    reconnect-on_close redis stringify closed now s laws h k l =
        let e =
          is_online-set_online redis laws t now (omega arith) stringify payload.player_id
            payload.player_id none s in
        rw (old_gone, reconnect_effects, on_close) (refl, ground (arith, e, h, k, l))
