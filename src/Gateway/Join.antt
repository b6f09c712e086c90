-- ===== src/Gateway/Join.antt =====
-- Joining a session: who gets in, and what a reconnect token is good for.
use realtime_game_server.Base.{
  ℕ, ◌+◌, ◌≡◌, refl, ◌⊎◌, true, false, Option, none, some, [], ◌∷◌, inl, inr, Key, ◌==◌, arith, any,
  Option-cases, Bool-cases,
}
use realtime_game_server.Base.Dict.{Dict, lookup, erase, lookup-insert, lookup-erase}
use realtime_game_server.Base.Action.{Error, Result, ok, err}
use realtime_game_server.Game.Double.{Double}
use realtime_game_server.Lobby.Rooms.{RoomEntity, is_active}
use realtime_game_server.Lobby.Service.{get_room}
use realtime_game_server.Gateway.State.{
  SocketContext, ReconnectEntry, Settings, World, purge_expired_reconnect_tokens, is_good_reconnect,
  reconnect_ttl_ms,
}
use realtime_game_server.Gateway.Handlers.{enter, join_room_session, join_session}

pub Result-cases :
    {A : Type 0} (r : Result A) → ((e : Error) × (r ≡ err e)) ⊎ ((a : A) × (r ≡ ok a))
Result-cases (ok a) = inr (a, refl)
Result-cases (err e) = inl (e, refl)

-- The room lets the player in: it is there, not closed, and the player is one of its members.
pub record MayEnter {W : Type 0} (player_id room_id : Key) (w : World W) : Type 0 where
  pub room : RoomEntity
  pub found : (get_room room_id w.lobby).0 ≡ ok room
  pub member : any (λ m. m.player_id == player_id) room.members ≡ true
  pub open' : is_active room.status ≡ true

-- What a refusal leaves alone.
pub record SameWorld {W : Type 0} (w w' : World W) : Type 0 where
  pub sockets : w'.sockets ≡ w.sockets
  pub sockets_by_player : w'.sockets_by_player ≡ w.sockets_by_player
  pub sessions : w'.sessions ≡ w.sessions
  pub subscribed_rooms : w'.subscribed_rooms ≡ w.subscribed_rooms
  pub lobby : w'.lobby ≡ w.lobby

pub lookup-purge :
    (now : ℕ) (token : Key) (entries : Dict ReconnectEntry)
    → lookup token entries ≡ none
    → lookup token (purge_expired_reconnect_tokens now entries) ≡ none
unfolding purge_expired_reconnect_tokens lookup
lookup-purge now token [] h = refl
lookup-purge now token ((k, e) ∷ entries) h = ground (arith, lookup-purge now token entries)

module _ {W : Type 0} ⦃d : Double W⦄ (env : Settings W) (now : ℕ) (uuid socket : Key)
    (ctx : SocketContext) (room_id : Key) where
  join_room_session_cases :
      (w : World W)
      → (((join_room_session env now uuid socket ctx room_id w).world ≡ w))
        ⊎ (MayEnter ctx.player_id room_id w
            × (join_room_session env now uuid socket ctx room_id w
                ≡ enter env now uuid socket ctx room_id w))
  unfolding join_room_session
  join_room_session_cases w = elim (Result-cases (get_room room_id w.lobby).0) [
    | inl (e, bad) ↦ rw (bad, join_room_session) (inl refl)
    | inr (room, found) ↦ elim (Bool-cases (any (λ m. m.player_id == ctx.player_id) room.members)) [
      | inr out ↦ inl (rw (found, out, join_room_session) refl)
      | inl member ↦ elim (Bool-cases (is_active room.status)) [
        | inr closed ↦ inl (rw (found, member, closed, join_room_session) refl)
        | inl open' ↦ inr (
          record { room = room; found = found; member = member; open' = open' },
          rw (found, member, open', join_room_session) refl,
        )
      ]
    ]
  ]

  -- A join leaves the connections, the sessions, the subscriptions and the lobby alone, or else the
  -- room is there, is not closed and has the player among its members, and the connection enters
  -- it.
  pub join_session_cases :
      (reconnect_token : Option Key) (w : World W)
      → SameWorld w (join_session env now uuid socket ctx room_id reconnect_token w).world
        ⊎ (MayEnter ctx.player_id room_id w
            × ((tokens : Dict ReconnectEntry) × (join_session env now uuid socket ctx room_id
                    reconnect_token w
                  ≡ enter env now uuid socket ctx room_id
                      (record w { reconnect_tokens = tokens }))))
  unfolding join_session
  join_session_cases none w =
      let tokens = purge_expired_reconnect_tokens now w.reconnect_tokens in
      elim (join_room_session_cases (record w { reconnect_tokens = tokens })) [
        | inl same ↦ inl (
            rw same (record {
              sockets = refl;
              sockets_by_player = refl;
              sessions = refl;
              subscribed_rooms = refl;
              lobby = refl;
            }))
        | inr (may, done) ↦ inr (
          record { room = may.room; found = may.found; member = may.member; open' = may.open' },
          (tokens, done),
        )
      ]
  join_session_cases (some token) w =
      let tokens = purge_expired_reconnect_tokens now w.reconnect_tokens in
      elim (Bool-cases (is_good_reconnect now ctx.player_id room_id (lookup token tokens))) [
        | inr bad ↦ inl (
            rw bad (record {
              sockets = refl;
              sockets_by_player = refl;
              sessions = refl;
              subscribed_rooms = refl;
              lobby = refl;
            }))
        | inl good ↦
            rw good
              (elim (join_room_session_cases (record w { reconnect_tokens = erase token tokens })) [
                | inl same ↦ inl (
                    rw same (record {
                      sockets = refl;
                      sockets_by_player = refl;
                      sessions = refl;
                      subscribed_rooms = refl;
                      lobby = refl;
                    }))
                | inr (may, done) ↦ inr (
                  record {
                    room = may.room;
                    found = may.found;
                    member = may.member;
                    open' = may.open';
                  },
                  (erase token tokens, done),
                )
              ])
      ]

  enter_consumed :
      (token : Key) (w : World W)
      → (uuid == token) ≡ false
      → lookup token w.reconnect_tokens ≡ none
      → lookup token (enter env now uuid socket ctx room_id w).world.reconnect_tokens ≡ none
  unfolding enter
  enter_consumed token w other gone =
      let entry : ReconnectEntry = record {
        player_id = ctx.player_id;
        room_id = room_id;
        expires_at = now + reconnect_ttl_ms;
      } in
      elim (Option-cases ctx.reconnect_token) [
        | inl absent ↦ rw absent (ground (arith, lookup-insert uuid token entry w.reconnect_tokens))
        | inr (old, known) ↦ rw known (
            ground (
              arith,
              lookup-insert uuid token entry (erase old w.reconnect_tokens),
              lookup-erase old token w.reconnect_tokens,
            ))
      ]

  -- A reconnect token works once: whatever a join with it answers, the token is unknown after it,
  -- where the new token is another one.
  pub join_session_consumes :
      (token : Key) (w : World W)
      → (uuid == token) ≡ false
      → lookup token
          (join_session env now uuid socket ctx room_id (some token) w).world.reconnect_tokens
        ≡ none
  unfolding join_session
  join_session_consumes token w other =
      let tokens = purge_expired_reconnect_tokens now w.reconnect_tokens in
      let w' : World W = record w { reconnect_tokens = erase token tokens } in
      let gone : lookup token (erase token tokens) ≡ none =
        ground (arith, lookup-erase token token tokens) in
      elim (Bool-cases (is_good_reconnect now ctx.player_id room_id (lookup token tokens))) [
        | inr bad ↦ rw bad gone
        | inl good ↦ rw good (elim (join_room_session_cases w') [
          | inl same ↦ rw same gone
          | inr (_, done) ↦ rw done (enter_consumed token w' other gone)
        ])
      ]
