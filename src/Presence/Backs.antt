-- ===== src/Presence/Backs.antt =====
-- What each handler of the gateway does to the connection of one player and to who is online.
use realtime_game_server.Base.{
  ℕ, suc, ◌≡◌, refl, true, Option, none, [], ◌∷◌, ◌++◌, Key, arith, ◌⊎◌, inl, inr, Bool-cases,
  Option-cases, is_some,
}
use realtime_game_server.Base.Dict.{lookup, insert, lookup-insert, lookup-erase}
use realtime_game_server.Game.Double.{Double}
use realtime_game_server.Auth.Tokens.{AccessTokenPayload}
use realtime_game_server.RateLimit.{consume}
use realtime_game_server.Gateway.State.{
  SocketContext, Settings, World, Effect, Outcome, Frame, done,
}
use realtime_game_server.Gateway.Connect.{replace_existing_socket, handle_connection}
use realtime_game_server.Gateway.Handlers.{on_message, tick}
use realtime_game_server.Gateway.Connections.{IsConnected}
use realtime_game_server.Presence.Effects.{AreOf}
use realtime_game_server.Presence.Handlers.{
  append-AreOf, tick_by_player, tick-AreOf, on_message-AreOf, on_message_by_player,
  on_message_unknown,
}

-- the player has a connection
abbrev pub HasSocket : {W : Type 0} → Key → World W → Type 0
HasSocket q w = is_some (lookup q w.sockets_by_player) ≡ true

-- What a handler does to `q`: it keeps its socket, if there is one, and sets nobody online but one
-- player, which has a socket if it is `q`.
pub record Backs {W : Type 0} (q : Key) (w : World W) (o : Outcome W) : Type 0 where
  pub kept : HasSocket q w → HasSocket q o.world
  pub player : Key
  pub calls : AreOf player o.effects
  pub own : player ≡ q → HasSocket q o.world

module _ {W : Type 0} where
  replaced-HasSocket :
      (p q : Key) (w : World W)
      → HasSocket q w
      → (p ≡ q) ⊎ HasSocket q (replace_existing_socket p w).0
  unfolding replace_existing_socket
  replaced-HasSocket p q w h = elim (Option-cases (lookup p w.sockets_by_player)) [
    | inl absent ↦ inr (rw (absent, replace_existing_socket) h)
    | inr (s, found) ↦ ground (arith, lookup-erase p q w.sockets_by_player, found)
  ]

  replaced-AreOf : (p : Key) (w : World W) → AreOf p (replace_existing_socket p w).1
  unfolding replace_existing_socket
  replaced-AreOf p w = ground arith

  opened-Backs :
      (q socket p : Key) (ctx : SocketContext) (w : World W)
      → let (w', closed) = replace_existing_socket p w in
        Backs q w (
          done
            (record w' {
              sockets = insert socket ctx w'.sockets;
              sockets_by_player = insert p socket w'.sockets_by_player;
            })
            (closed ++ Effect.set_online p none ∷ []))
  opened-Backs q socket p ctx w =
      let (w', closed) = replace_existing_socket p w in
      let e = lookup-insert p q socket w'.sockets_by_player in
      record {
        kept = λ h. elim (replaced-HasSocket p q w h) [
          | inl same ↦ ground (arith, e, same)
          | inr kept ↦ ground (arith, e, kept)
        ];
        player = p;
        calls =
            append-AreOf p closed (Effect.set_online p none ∷ []) (replaced-AreOf p w) (refl, tt);
        own = λ same. ground (arith, e, same);
      }

  -- nobody is set online and the sockets stay
  pub quiet-Backs :
      (q : Key) (w : World W) (o : Outcome W)
      → o.world.sockets_by_player ≡ w.sockets_by_player
      → AreOf (suc q) o.effects
      → Backs q w o
  quiet-Backs q w o same calls = record {
    kept = λ h. rw same h;
    player = suc q;
    calls = calls;
    own = λ e. absurd (omega arith);
  }

  pub handle_connection-Backs :
      (env : Settings W) (now : ℕ) (socket ip q : Key) (token : Option AccessTokenPayload)
      (w : World W)
      → Backs q w (handle_connection env now socket ip token w)
  unfolding handle_connection
  handle_connection-Backs env now socket ip q token w =
      let used = consume now ip env.ws_connect_rate_limit_per_minute 60 w.connect_counters in
      let w₁ : World W = record w { connect_counters = used.1 } in
      elim (Bool-cases used.0.allowed) [
        | inr limited ↦ rw (limited, handle_connection) (quiet-Backs q w _ refl tt)
        | inl allowed ↦ elim (Option-cases token) [
          | inl bad ↦ rw (allowed, bad, handle_connection) (quiet-Backs q w _ refl tt)
          | inr (payload, good) ↦
              let ctx : SocketContext = record {
                user_id = payload.user_id;
                player_id = payload.player_id;
                username = payload.username;
                room_id = none;
                reconnect_token = none;
              } in
              let b = opened-Backs q socket payload.player_id ctx w₁ in
              rw (allowed, good, handle_connection)
                (record { kept = b.kept; player = b.player; calls = b.calls; own = b.own })
        ]
      ]

module _ {W : Type 0} ⦃d : Double W⦄ (env : Settings W) (now : ℕ) (q : Key) where
  pub tick-Backs : (room_id : Key) (w : World W) → Backs q w (tick env now room_id w)
  tick-Backs room_id w =
      quiet-Backs q w _ (tick_by_player env now room_id w) (tick-AreOf (suc q) env now room_id w)

  pub on_message-Backs :
      (uuid socket : Key) (frame : Frame W) (w : World W)
      → IsConnected w
      → Backs q w (on_message env now uuid socket frame w)
  on_message-Backs uuid socket frame w v =
      let same = on_message_by_player env now uuid socket frame w in
      elim (Option-cases (lookup socket w.sockets)) [
        | inl absent ↦
            quiet-Backs q w _ same (rw (on_message_unknown env now uuid socket frame w absent) tt)
        | inr (ctx, found) ↦ record {
          kept = λ h. rw same h;
          player = ctx.player_id;
          calls = on_message-AreOf env now uuid socket ctx frame w found;
          own = λ e. rw same (ground (arith, v.unique socket ctx found, e));
        }
      ]
