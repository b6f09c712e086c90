-- ===== src/Presence/Reach.antt =====
-- The gateway and Redis together: every handler's calls of the presence service are performed before
-- the next one runs. A socket that closes while `handleConnection` awaits is not among the steps.
use realtime_game_server.Presence.Backs.{
  HasSocket, Backs, quiet-Backs, handle_connection-Backs, tick-Backs, on_message-Backs,
}
use realtime_game_server.Base.{
  ℕ, ◌≤◌, ◌≡◌, refl, true, false, Option, none, [], Key, arith, inl, inr, Option-cases,
}
use realtime_game_server.Base.Dict.{lookup, lookup-erase}
use realtime_game_server.Game.Double.{Double}
use realtime_game_server.Auth.Tokens.{AccessTokenPayload}
use realtime_game_server.Lobby.Rooms
use realtime_game_server.Gateway.State.{Settings, World, Outcome, Frame, done}
use realtime_game_server.Gateway.Connect.{handle_connection, on_close}
use realtime_game_server.Gateway.Handlers.{on_message, tick}
use realtime_game_server.Gateway.Connections.{
  IsConnected, handle_connection-IsConnected, on_message-IsConnected, on_close-IsConnected,
  tick-IsConnected,
}
use realtime_game_server.Gateway.Reach.{started, started-IsWorld}
use realtime_game_server.Presence.{Payload, is_online}
use realtime_game_server.Presence.Commands.{Redis, IsRedis}
use realtime_game_server.Presence.Effects.{
  perform, perform_all, perform_all_online, is_online-set_offline,
}

module _ {W : Type 0} ⦃d : Double W⦄ (env : Settings W) where
  -- what can happen at a time, and what the handler leaves
  pub data Event (now : ℕ) (w : World W) : Outcome W → Type 0 where
    connect :
        (socket ip : Key) (token : Option AccessTokenPayload)
        → lookup socket w.sockets ≡ none
        → Event now w (handle_connection env now socket ip token w)
    message :
        (uuid socket : Key) (frame : Frame W) → Event now w (on_message env now uuid socket frame w)
    close : (socket : Key) → Event now w (on_close socket w)
    timer : (room_id : Key) → Event now w (tick env now room_id w)
    rooms : (lobby : Rooms.Db) → Event now w (done (record w { lobby = lobby }) [])

  event-IsConnected :
      {now : ℕ} {w : World W} {o : Outcome W} → Event now w o → IsConnected w → IsConnected o.world
  event-IsConnected {now} {w} (connect socket ip token new) v =
      handle_connection-IsConnected env now socket ip token w new v
  event-IsConnected {now} {w} (message uuid socket frame) v =
      on_message-IsConnected env now uuid socket frame w v
  event-IsConnected {now} {w} (close socket) v = on_close-IsConnected socket w v
  event-IsConnected {now} {w} (timer room_id) v = tick-IsConnected env now 0 0 room_id w v
  event-IsConnected (rooms lobby) v = record { held = v.held; unique = v.unique }

module _ {Text S W : Type 0} (redis : Redis Text S) (stringify : Payload → Text) where
  -- From the time on, who is online has a connection.
  pub record IsHonest (t : ℕ) (w : World W) (s : S) : Type 0 where
    pub at : (now : ℕ) (q : Key) → t ≤ now → is_online redis now q s ≡ true → HasSocket q w

  module _ (laws : IsRedis redis) (t now : ℕ) (later : t ≤ now) (w : World W) (s : S) where
    backed-IsHonest :
        (o : Outcome W)
        → IsHonest t w s
        → ((q : Key) → Backs q w o)
        → IsHonest now o.world (perform_all redis stringify now o.effects s)
    backed-IsHonest o h b = record {
      at = λ at q after online.
          let bq = b q in
          elim (perform_all_online redis stringify laws now at after bq.player q o.effects s
            bq.calls online) [
              | inl same ↦ bq.own same
              | inr before ↦ bq.kept (h.at at q (omega arith) before)
            ];
    }

    closed-IsHonest :
        (socket : Key)
        → IsHonest t w s
        → IsHonest now
            (on_close socket w).world
            (perform_all redis stringify now (on_close socket w).effects s)
    unfolding on_close perform_all perform
    closed-IsHonest socket h = elim (Option-cases (lookup socket w.sockets)) [
      | inl absent ↦
          rw (absent, on_close)
            (record { at = λ at q after online. h.at at q (omega arith) online })
      | inr (ctx, found) ↦
          rw (found, on_close)
            (record {
              at = λ at q after online.
                  let e = is_online-set_offline redis laws now at after ctx.player_id q s in
                  ground (
                    arith,
                    e,
                    online,
                    h.at at q (omega arith),
                    lookup-erase ctx.player_id q w.sockets_by_player,
                  );
            })
    ]

module _ {Text S W : Type 0} ⦃d : Double W⦄ (redis : Redis Text S) (stringify : Payload → Text)
    (env : Settings W) where
  -- The gateway starts with nobody online; events come one after the other.
  pub data Reach : ℕ → World W → S → Type 0 where
    here :
        (lobby : Rooms.Db) (s : S)
        → ((now : ℕ) (q : Key) → is_online redis now q s ≡ false)
        → Reach 0 (started lobby) s
    next :
        {t : ℕ} {w : World W} {s : S}
        → Reach t w s
        → (now : ℕ) → t ≤ now
        → {o : Outcome W} → Event env now w o
        → Reach now o.world (perform_all redis stringify now o.effects s)

  event-IsHonest :
      {now : ℕ} {w : World W} {o : Outcome W}
      → Event env now w o
      → IsRedis redis
      → (t : ℕ) (s : S) → t ≤ now
      → IsConnected w
      → IsHonest redis stringify t w s
      → IsHonest redis stringify now o.world (perform_all redis stringify now o.effects s)
  event-IsHonest {now} {w} {o} (connect socket ip token new) laws t s later v h =
      backed-IsHonest redis stringify laws t now later w s o h
        (λ q. handle_connection-Backs env now socket ip q token w)
  event-IsHonest {now} {w} {o} (message uuid socket frame) laws t s later v h =
      backed-IsHonest redis stringify laws t now later w s o h
        (λ q. on_message-Backs env now q uuid socket frame w v)
  event-IsHonest {now} {w} (close socket) laws t s later v h =
      closed-IsHonest redis stringify laws t now later w s socket h
  event-IsHonest {now} {w} {o} (timer room_id) laws t s later v h =
      backed-IsHonest redis stringify laws t now later w s o h (λ q. tick-Backs env now q room_id w)
  event-IsHonest {now} {w} {o} (rooms lobby) laws t s later v h =
      backed-IsHonest redis stringify laws t now later w s o h (λ q. quiet-Backs q w o refl tt)

  Reach-both :
      {t : ℕ} {w : World W} {s : S}
      → Reach t w s
      → IsRedis redis
      → IsConnected w × IsHonest redis stringify t w s
  Reach-both (here lobby s nobody) laws = (
    (started-IsWorld env lobby).connections,
    record { at = λ now q after online. absurd (ground (arith, nobody now q, online)) },
  )
  Reach-both (next {t} {w} {s} r now later event) laws =
      let (v, h) = Reach-both r laws in
      (event-IsConnected env event v, event-IsHonest event laws t s later v h)

  -- Where Redis keeps a key as long as it was told to and no longer, and nobody is online at the
  -- start of the gateway, then whatever connections, frames, closes, ticks and changes of the rooms
  -- follow one after the other, whoever the presence service calls online has a connection; a
  -- socket that closes while its connection is being set up is not among them.
  pub Reach-IsHonest :
      {t : ℕ} {w : World W} {s : S}
      → IsRedis redis
      → Reach t w s
      → (now : ℕ) (q : Key) → t ≤ now
      → is_online redis now q s ≡ true
      → HasSocket q w
  Reach-IsHonest laws r = (Reach-both r laws).1.at
