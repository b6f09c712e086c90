-- ===== src/Gateway/Shutdown.antt =====
-- The end of the server: `shutdown` of src/server.ts with `close` of
-- src/infrastructure/websocket/gateway.ts. The HTTP server, Redis and the database close outside the
-- model.
use realtime_game_server.Base.{
  ◌≡◌, refl, Bool, ◌&&◌, ◌||◌, true, false, none, some, Option, List, [], ◌∷◌, Key, ◌==◌, arith,
  any, inl, inr, Option-cases, if◌then◌else◌,
}
use realtime_game_server.Base.Dict.{Dict, lookup, keys, contains, lookup-insert, lookup-erase}
use realtime_game_server.Game.Session.{GameSession}
use realtime_game_server.Game.Manager.{destroy_all, destroy_all-none}
use realtime_game_server.Gateway.State.{SocketContext, World, Effect, Outcome, done}
use realtime_game_server.Gateway.Connect.{on_close, on_session}
use realtime_game_server.Gateway.Connections.{IsConnected, on_close-IsConnected}

module _ {W : Type 0} where
  -- `socket.close(1001, 'server_shutdown')` for each
  unfoldable pub close_each : List Key → List (Effect W)
  close_each [] = []
  close_each (socket ∷ sockets) = Effect.close socket 1001 ∷ close_each sockets

  -- `WebSocketGateway.close`
  unfoldable pub close : World W → Outcome W
  close w = done w (close_each (keys w.sockets))

  unfoldable pub shutdown : World W → Outcome W
  shutdown w = close (record w { sessions = destroy_all w.sessions })

  -- the sockets close, one after the other
  unfoldable pub closes : List Key → World W → World W
  closes [] w = w
  closes (socket ∷ sockets) w = closes sockets (on_close socket w).world

  -- the socket is told to close with the code 1001
  abbrev pub is_told : Key → List (Effect W) → Bool
  is_told s [] = false
  is_told s (Effect.close k code ∷ es) = (k == s && code == 1001) || is_told s es
  is_told s (Effect.send _ _ ∷ es) = is_told s es
  is_told s (Effect.set_online _ _ ∷ es) = is_told s es
  is_told s (Effect.set_offline _ ∷ es) = is_told s es

module _ (W : Type 0) where
  told-keys :
      (s : Key) (sockets : Dict SocketContext)
      → is_told {W = W} s (close_each (keys sockets)) ≡ contains s sockets
  unfolding close_each keys lookup
  told-keys s [] = refl
  told-keys s ((k, ctx) ∷ sockets) = ground (arith, told-keys s sockets)

module _ {W : Type 0} where
  lookup-on_close :
      (socket s : Key) (w : World W)
      → lookup s (on_close socket w).world.sockets
        ≡ (if socket == s then none else lookup s w.sockets)
  unfolding on_close
  lookup-on_close socket s w = elim (Option-cases (lookup socket w.sockets)) [
    | inl absent ↦ rw (absent, on_close) (ground (arith, absent))
    | inr (ctx, found) ↦ rw (found, on_close) (lookup-erase socket s w.sockets)
  ]

  lookup-closes :
      (order : List Key) (s : Key) (w : World W)
      → lookup s (closes order w).sockets
        ≡ (if any (λ k. k == s) order then none else lookup s w.sockets)
  unfolding closes
  lookup-closes [] s w = refl
  lookup-closes (socket ∷ order) s w =
      ground (arith, lookup-closes order s (on_close socket w).world, lookup-on_close socket s w)

  closes-IsConnected :
      (order : List Key) (w : World W) → IsConnected w → IsConnected (closes order w)
  unfolding closes
  closes-IsConnected [] w v = v
  closes-IsConnected (socket ∷ order) w v =
      closes-IsConnected order (on_close socket w).world (on_close-IsConnected socket w v)

  -- no session is brought back
  on_session-none :
      (f : GameSession W → GameSession W) (room : Option Key) (r : Key)
      (sessions : Dict (GameSession W))
      → lookup r sessions ≡ none
      → lookup r (on_session f room sessions) ≡ none
  on_session-none f none r sessions h = h
  on_session-none f (some k) r sessions h = elim (Option-cases (lookup k sessions)) [
    | inl absent ↦ rw (absent, on_session) h
    | inr (session, found) ↦
        rw (found, on_session) (ground (arith, h, lookup-insert k r (f session) sessions))
  ]

  closed_sessions :
      (socket r : Key) (w : World W)
      → lookup r w.sessions ≡ none
      → lookup r (on_close socket w).world.sessions ≡ none
  unfolding on_close
  closed_sessions socket r w h = elim (Option-cases (lookup socket w.sockets)) [
    | inl absent ↦ rw (absent, on_close) h
    | inr (ctx, found) ↦ rw (found, on_close) (on_session-none _ ctx.room_id r w.sessions h)
  ]

  closes_sessions :
      (order : List Key) (r : Key) (w : World W)
      → lookup r w.sessions ≡ none
      → lookup r (closes order w).sessions ≡ none
  unfolding closes
  closes_sessions [] r w h = h
  closes_sessions (socket ∷ order) r w h =
      closes_sessions order r (on_close socket w).world (closed_sessions socket r w h)

  nobody :
      (w : World W)
      → IsConnected w
      → ((s : Key) → lookup s w.sockets ≡ none)
      → (p : Key) → lookup p w.sockets_by_player ≡ none
  nobody w v gone p = elim (Option-cases (lookup p w.sockets_by_player)) [
    | inl absent ↦ absent
    | inr (s, found) ↦ absurd (ground (arith, v.held p s found, gone s))
  ]

  -- Where the two maps of connections agree, once every socket that the shutdown tells to close
  -- (with the code 1001) has closed, in any order, the gateway has no socket, no player has a
  -- connection, and no session is left.
  pub shutdown_ends :
      (order : List Key) (w : World W)
      → IsConnected w
      → ((s : Key) → is_told s (shutdown w).effects ≡ true → any (λ k. k == s) order ≡ true)
      → let after = closes order (shutdown w).world in
        ((s : Key) → lookup s after.sockets ≡ none)
        × ((p : Key) → lookup p after.sockets_by_player ≡ none)
        × ((r : Key) → lookup r after.sessions ≡ none)
  unfolding shutdown close
  shutdown_ends order w v all_told =
      let w₁ : World W = record w { sessions = destroy_all w.sessions } in
      let gone : (s : Key) → lookup s (closes order w₁).sockets ≡ none =
        λ s. ground (arith, lookup-closes order s w₁, told-keys W s w.sockets, all_told s) in
      (
        gone,
        nobody (closes order w₁)
            (closes-IsConnected order w₁ (record { held = v.held; unique = v.unique })) gone,
        (λ r. closes_sessions order r w₁ (destroy_all-none r w.sessions)),
      )
