-- ===== src/Gateway/Rejected.antt =====
-- Which frames end in a rejected promise, which nothing catches.
use realtime_game_server.Base.{ℕ, ◌≡◌, true, false, Option, none, some, [], Key, ltb}
use realtime_game_server.Base.Dict.{lookup}
use realtime_game_server.Base.Action.{Error}
use realtime_game_server.Game.Double.{Double}
use realtime_game_server.Game.Protocol.{ClientMessage}
use realtime_game_server.RateLimit.{consume}
use realtime_game_server.Gateway.State.{
  SocketContext, Settings, World, Frame, Parsed, Outcome, max_payload,
  purge_expired_reconnect_tokens, is_good_reconnect,
}
use realtime_game_server.Gateway.Handlers.{join_session}

-- the handler ends with this error and has sent nothing
abbrev FailsWith : {W : Type 0} → Error → Outcome W → Type 0
FailsWith e o = (o.rejected ≡ some e) × (o.effects ≡ [])

-- no token was given, or one that is good
abbrev IsLetIn : {W : Type 0} → ℕ → SocketContext → Key → Option Key → World W → Type 0
IsLetIn now ctx room_id none w = Unit {0}
IsLetIn now ctx room_id (some token) w =
    is_good_reconnect now ctx.player_id room_id
      (lookup token (purge_expired_reconnect_tokens now w.reconnect_tokens))
    ≡ true

module _ {W : Type 0} ⦃d : Double W⦄ (env : Settings W) (now : ℕ) (uuid socket : Key) where
  -- The frame is let through from a connection and asks to join a room that is not there, with no
  -- reconnect token or a good one.
  pub record JoinsUnknown (frame : Frame W) (w : World W) : Type 0 where
    ctx : SocketContext
    room_id : Key
    token : Option Key
    connected : lookup socket w.sockets ≡ some ctx
    small : ltb max_payload frame.length ≡ false
    allowed : (consume now ctx.player_id env.ws_rate_limit_per_second 1 w.counters).0.allowed ≡ true
    asked : frame.parsed ≡ Parsed.valid (ClientMessage.join_session room_id token)
    let_in : IsLetIn now ctx room_id token w
    unknown : lookup room_id w.lobby.rooms ≡ none
