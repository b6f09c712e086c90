-- ===== src/Gateway/Message.antt =====
-- What a frame does.
use realtime_game_server.Base.{
  ℕ, ◌≡◌, refl, ◌⊎◌, false, some, inl, inr, Key, ltb, Option-cases, Bool-cases,
}
use realtime_game_server.Base.Dict.{Dict, lookup}
use realtime_game_server.Game.Double.{Double}
use realtime_game_server.Game.Protocol.{ClientMessage}
use realtime_game_server.RateLimit.{Counter, consume}
use realtime_game_server.Gateway.State.{
  SocketContext, Settings, World, Frame, Parsed, max_payload, refuse,
}
use realtime_game_server.Gateway.Handlers.{dispatch, on_message}
use realtime_game_server.Gateway.Join.{SameWorld}

pub Parsed-cases :
    {W : Type 0} (p : Parsed W)
    → ((p ≡ Parsed.malformed) ⊎ (p ≡ Parsed.invalid))
      ⊎ ((m : ClientMessage W) × (p ≡ Parsed.valid m))
Parsed-cases Parsed.malformed = inl (inl refl)
Parsed-cases Parsed.invalid = inl (inr refl)
Parsed-cases (Parsed.valid m) = inr (m, refl)

SameWorld-refl : {W : Type 0} (w : World W) → SameWorld w w
SameWorld-refl w = record {
  sockets = refl;
  sockets_by_player = refl;
  sessions = refl;
  subscribed_rooms = refl;
  lobby = refl;
}

counted :
    {W : Type 0} (w : World W) (counters : Dict Counter)
    → SameWorld w (record w { counters = counters })
counted w counters = record {
  sockets = refl;
  sockets_by_player = refl;
  sessions = refl;
  subscribed_rooms = refl;
  lobby = refl;
}

module _ {W : Type 0} ⦃d : Double W⦄ (env : Settings W) (now : ℕ) (uuid socket : Key)
    (frame : Frame W) (w : World W) where
  pub on_message_cases :
      SameWorld w (on_message env now uuid socket frame w).world
      ⊎ ((ctx : SocketContext) × (message : ClientMessage W) × (counters : Dict Counter) × (lookup
              socket w.sockets
            ≡ some ctx)
          × (on_message env now uuid socket frame w
              ≡ dispatch env now uuid socket ctx message (record w { counters = counters })))
  unfolding on_message
  on_message_cases = elim (Option-cases (lookup socket w.sockets)) [
    | inl absent ↦ inl (rw (absent, on_message) (SameWorld-refl w))
    | inr (ctx, found) ↦ elim (Bool-cases (ltb max_payload frame.length)) [
      | inl large ↦ inl (rw (found, large, on_message) (SameWorld-refl w))
      | inr small ↦
          let used = consume now ctx.player_id env.ws_rate_limit_per_second 1 w.counters in
          elim (Bool-cases used.0.allowed) [
            | inr limited ↦ inl (rw (found, small, limited, on_message) (counted w used.1))
            | inl allowed ↦ elim (Parsed-cases frame.parsed) [
              | inl (inl bad) ↦ inl (rw (found, small, allowed, bad, on_message) (counted w used.1))
              | inl (inr bad) ↦ inl (rw (found, small, allowed, bad, on_message) (counted w used.1))
              | inr (m, good) ↦
                  inr (ctx, m, used.1, found, rw (found, small, allowed, good, on_message) refl)
            ]
          ]
    ]
  ]

  -- A frame within the size limit from a connection whose rate limit is exhausted counts against
  -- the limit, is answered by RATE_LIMIT and changes nothing else.
  on_message_limited :
      (ctx : SocketContext)
      → lookup socket w.sockets ≡ some ctx
      → ltb max_payload frame.length ≡ false
      → let used = consume now ctx.player_id env.ws_rate_limit_per_second 1 w.counters in
        used.0.allowed ≡ false
        → on_message env now uuid socket frame w
          ≡ refuse (record w { counters = used.1 }) socket "RATE_LIMIT" "Too many messages"
  unfolding on_message
  on_message_limited ctx found small limited = rw (found, small, limited, on_message) refl
