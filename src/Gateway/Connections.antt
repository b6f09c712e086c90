-- ===== src/Gateway/Connections.antt =====
-- The two maps of connections of the gateway, under its handlers.
use realtime_game_server.Base.{
  ℕ, ◌≡◌, refl, Bool, true, false, Option, none, some, inl, inr, Key, ◌==◌, arith, Option-cases,
  Bool-cases,
}
use realtime_game_server.Base.Dict.{Dict, lookup, insert, erase, lookup-insert, lookup-erase}
use realtime_game_server.Game.Double.{Double}
use realtime_game_server.Game.Protocol.{ClientMessage}
use realtime_game_server.Auth.Tokens.{AccessTokenPayload}
use realtime_game_server.RateLimit.{consume}
use realtime_game_server.Gateway.State.{SocketContext, Settings, World, Frame}
use realtime_game_server.Gateway.Connect.{replace_existing_socket, handle_connection, on_close}
use realtime_game_server.Gateway.Handlers.{enter, dispatch, on_message, tick}
use realtime_game_server.Gateway.Join.{join_session_cases}
use realtime_game_server.Gateway.Message.{on_message_cases}

abbrev owned_by : Key → Option SocketContext → Bool
owned_by player_id none = false
owned_by player_id (some ctx) = ctx.player_id == player_id

-- The socket of a player is a connection of that player, and every connection is the socket of its
-- player.
pub record AreConnections (sockets : Dict SocketContext) (by_player : Dict Key) : Type 0 where
  pub held : (p s : Key) → lookup p by_player ≡ some s → owned_by p (lookup s sockets) ≡ true
  pub unique :
      (s : Key) (ctx : SocketContext)
      → lookup s sockets ≡ some ctx
      → lookup ctx.player_id by_player ≡ some s

abbrev pub IsConnected : {W : Type 0} → World W → Type 0
IsConnected w = AreConnections w.sockets w.sockets_by_player

-- a context that is written again with the same player
rebound-AreConnections :
    (socket : Key) (ctx ctx' : SocketContext) (sockets : Dict SocketContext) (by_player : Dict Key)
    → lookup socket sockets ≡ some ctx
    → ctx'.player_id ≡ ctx.player_id
    → AreConnections sockets by_player
    → AreConnections (insert socket ctx' sockets) by_player
rebound-AreConnections socket ctx ctx' sockets by_player found same v = record {
  held = λ p s e. ground (arith, lookup-insert socket s ctx' sockets, v.held p s);
  unique = λ s c e.
      ground (arith, lookup-insert socket s ctx' sockets, v.unique s c, v.unique socket ctx);
}

closed-AreConnections :
    (socket : Key) (ctx : SocketContext) (sockets : Dict SocketContext) (by_player : Dict Key)
    → lookup socket sockets ≡ some ctx
    → AreConnections sockets by_player
    → AreConnections (erase socket sockets) (erase ctx.player_id by_player)
closed-AreConnections socket ctx sockets by_player found v = record {
  held = λ p s e.
      ground
        (arith, lookup-erase ctx.player_id p by_player, lookup-erase socket s sockets, v.held p s);
  unique = λ s c e. ground (
    arith,
    lookup-erase socket s sockets,
    lookup-erase ctx.player_id c.player_id by_player,
    v.unique s c,
    v.unique socket ctx,
  );
}

opened-AreConnections :
    (socket : Key) (ctx : SocketContext) (sockets : Dict SocketContext) (by_player : Dict Key)
    → lookup socket sockets ≡ none
    → lookup ctx.player_id by_player ≡ none
    → AreConnections sockets by_player
    → AreConnections (insert socket ctx sockets) (insert ctx.player_id socket by_player)
opened-AreConnections socket ctx sockets by_player new free v = record {
  held = λ p s e. ground (
    arith,
    lookup-insert ctx.player_id p socket by_player,
    lookup-insert socket s ctx sockets,
    v.held p s,
  );
  unique = λ s c e. ground (
    arith,
    lookup-insert socket s ctx sockets,
    lookup-insert ctx.player_id c.player_id socket by_player,
    v.unique s c,
  );
}

module _ {W : Type 0} where
  replaced-IsConnected :
      (p : Key) (w : World W) → IsConnected w → IsConnected (replace_existing_socket p w).0
  unfolding replace_existing_socket
  replaced-IsConnected p w v = elim (Option-cases (lookup p w.sockets_by_player)) [
    | inl absent ↦ rw (absent, replace_existing_socket) v
    | inr (s, found) ↦ elim (Option-cases (lookup s w.sockets)) [
      | inl lost ↦ absurd (ground (arith, v.held p s))
      | inr (ctx, known) ↦
          let own : ctx.player_id ≡ p = ground (arith, v.held p s) in
          rw (found, replace_existing_socket)
            (rw own at (closed-AreConnections s ctx w.sockets w.sockets_by_player known v))
    ]
  ]

  replaced_free :
      (p : Key) (w : World W) → lookup p (replace_existing_socket p w).0.sockets_by_player ≡ none
  unfolding replace_existing_socket
  replaced_free p w = elim (Option-cases (lookup p w.sockets_by_player)) [
    | inl absent ↦ rw (absent, replace_existing_socket) absent
    | inr (s, found) ↦
        rw (found, replace_existing_socket) (ground (arith, lookup-erase p p w.sockets_by_player))
  ]

  replaced_new :
      (p socket : Key) (w : World W)
      → lookup socket w.sockets ≡ none
      → lookup socket (replace_existing_socket p w).0.sockets ≡ none
  unfolding replace_existing_socket
  replaced_new p socket w new = elim (Option-cases (lookup p w.sockets_by_player)) [
    | inl absent ↦ rw (absent, replace_existing_socket) new
    | inr (s, found) ↦
        rw (found, replace_existing_socket) (ground (arith, lookup-erase s socket w.sockets))
  ]

  pub handle_connection-IsConnected :
      (env : Settings W) (now : ℕ) (socket ip : Key) (token : Option AccessTokenPayload)
      (w : World W)
      → lookup socket w.sockets ≡ none
      → IsConnected w
      → IsConnected (handle_connection env now socket ip token w).world
  unfolding handle_connection
  handle_connection-IsConnected env now socket ip token w new v =
      let used = consume now ip env.ws_connect_rate_limit_per_minute 60 w.connect_counters in
      let w₁ : World W = record w { connect_counters = used.1 } in
      elim (Bool-cases used.0.allowed) [
        | inr limited ↦ rw (limited, handle_connection) v
        | inl allowed ↦ elim (Option-cases token) [
          | inl bad ↦ rw (allowed, bad, handle_connection) v
          | inr (payload, good) ↦
              let ctx : SocketContext = record {
                user_id = payload.user_id;
                player_id = payload.player_id;
                username = payload.username;
                room_id = none;
                reconnect_token = none;
              } in
              let w₂ = (replace_existing_socket payload.player_id w₁).0 in
              rw (allowed, good, handle_connection)
                (opened-AreConnections socket ctx w₂.sockets w₂.sockets_by_player
                  (replaced_new payload.player_id socket w₁ new)
                  (replaced_free payload.player_id w₁)
                  (replaced-IsConnected payload.player_id w₁ v))
        ]
      ]

  pub on_close-IsConnected :
      (socket : Key) (w : World W) → IsConnected w → IsConnected (on_close socket w).world
  unfolding on_close
  on_close-IsConnected socket w v = elim (Option-cases (lookup socket w.sockets)) [
    | inl absent ↦ rw (absent, on_close) v
    | inr (ctx, found) ↦
        rw (found, on_close)
          (rw (v.unique socket ctx found) (
            ground (arith, closed-AreConnections socket ctx w.sockets w.sockets_by_player found v)))
  ]

module _ {W : Type 0} ⦃d : Double W⦄ (env : Settings W) (now : ℕ) (uuid socket : Key) where
  dispatch-IsConnected :
      (ctx : SocketContext) (message : ClientMessage W) (w : World W)
      → lookup socket w.sockets ≡ some ctx
      → IsConnected w
      → IsConnected (dispatch env now uuid socket ctx message w).world
  unfolding dispatch
  dispatch-IsConnected ctx (ClientMessage.join_session room_id token) w found v =
      elim (join_session_cases env now uuid socket ctx room_id token w) [
        | inl same ↦ rw (same.sockets, same.sockets_by_player) v
        | inr (_, (tokens, entered)) ↦ rw entered (
            unfold enter in
            rebound-AreConnections socket ctx _ w.sockets w.sockets_by_player found refl v)
      ]
  dispatch-IsConnected ctx (ClientMessage.input seq dt move look) w found v = ground (arith, v)
  dispatch-IsConnected ctx (ClientMessage.ping client_time) w found v = v
  dispatch-IsConnected ctx ClientMessage.heartbeat w found v = v
  dispatch-IsConnected ctx ClientMessage.request_snapshot w found v = ground (arith, v)

  pub on_message-IsConnected :
      (frame : Frame W) (w : World W)
      → IsConnected w
      → IsConnected (on_message env now uuid socket frame w).world
  on_message-IsConnected frame w v = elim (on_message_cases env now uuid socket frame w) [
    | inl same ↦ rw (same.sockets, same.sockets_by_player) v
    | inr (ctx, message, counters, found, asked) ↦
        rw asked (dispatch-IsConnected ctx message (record w { counters = counters }) found v)
  ]

  pub tick-IsConnected :
      (room_id : Key) (w : World W) → IsConnected w → IsConnected (tick env now room_id w).world
  unfolding tick
  tick-IsConnected room_id w v = elim (Option-cases (lookup room_id w.sessions)) [
    | inl absent ↦ rw (absent, tick) v
    | inr (s, found) ↦ rw (found, tick) v
  ]
