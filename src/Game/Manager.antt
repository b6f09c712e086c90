-- ===== src/Game/Manager.antt =====
-- src/infrastructure/game/game-session-manager.ts: the sessions of the rooms.
use realtime_game_server.Base.{
  ◌≡◌, refl, none, some, List, [], ◌∷◌, Key, ◌==◌, if◌then◌else◌, arith, is_some, any,
}
use realtime_game_server.Base.Dict.{Dict, lookup, insert, erase, keys, contains, lookup-erase}
use realtime_game_server.Game.Session
use realtime_game_server.Game.Session.{Settings, GameSession}

module _ {W : Type 0} where
  unfoldable pub get_or_create :
      Settings W → Key → Dict (GameSession W) → GameSession W × Dict (GameSession W)
  get_or_create env room_id sessions = elim (lookup room_id sessions) [
    | some session ↦ (session, sessions)
    | none ↦
        let session = Session.start env (Session.create room_id) in
        (session, insert room_id session sessions)
  ]

  -- A session that is stopped and dropped ticks no more; its timer goes with it.
  unfoldable pub destroy : Key → Dict (GameSession W) → Dict (GameSession W)
  destroy room_id sessions =
      if is_some (lookup room_id sessions) then erase room_id sessions else sessions

  unfoldable pub destroy_each : List Key → Dict (GameSession W) → Dict (GameSession W)
  destroy_each [] sessions = sessions
  destroy_each (room_id ∷ ids) sessions = destroy_each ids (destroy room_id sessions)

  unfoldable pub destroy_all : Dict (GameSession W) → Dict (GameSession W)
  destroy_all sessions = destroy_each (keys sessions) sessions

  lookup-destroy_each :
      (j : Key) (ids : List Key) (sessions : Dict (GameSession W))
      → lookup j (destroy_each ids sessions)
        ≡ (if any (λ k. k == j) ids then none else lookup j sessions)
  unfolding destroy_each destroy
  lookup-destroy_each j [] sessions = refl
  lookup-destroy_each j (k ∷ ids) sessions =
      ground (arith, lookup-destroy_each j ids (destroy k sessions), lookup-erase k j sessions)

  any-keys :
      (j : Key) (sessions : Dict (GameSession W))
      → any (λ k. k == j) (keys sessions) ≡ contains j sessions
  unfolding keys lookup
  any-keys j [] = refl
  any-keys j ((k, s) ∷ sessions) = ground (arith, any-keys j sessions)

  -- Destroying all sessions leaves none.
  pub destroy_all-none :
      (j : Key) (sessions : Dict (GameSession W)) → lookup j (destroy_all sessions) ≡ none
  unfolding destroy_all
  destroy_all-none j sessions =
      ground (arith, lookup-destroy_each j (keys sessions) sessions, any-keys j sessions)
