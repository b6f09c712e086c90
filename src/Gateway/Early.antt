-- ===== src/Gateway/Early.antt =====
-- Frames that come before `handleConnection` is done: it handles them after the player is online, and
-- what one of them throws is caught as a failed connection.
use realtime_game_server.Base.{
  ◌≡◌, ℕ, Option, none, some, List, [], ◌∷◌, ◌++◌, Key, inl, inr, Option-cases,
}
use realtime_game_server.Base.Dict.{lookup}
use realtime_game_server.Game.Double.{Double}
use realtime_game_server.Game.Protocol.{ServerMessage}
use realtime_game_server.Auth.Tokens.{AccessTokenPayload}
use realtime_game_server.Gateway.State.{Settings, World, Effect, Outcome, Frame, done}
use realtime_game_server.Gateway.Connect.{handle_connection}
use realtime_game_server.Gateway.Handlers.{on_message}
use realtime_game_server.Gateway.Reach.{Step, Reach}

module _ {W : Type 0} ⦃d : Double W⦄ (env : Settings W) (now : ℕ) (socket : Key) where
  -- each with the `uuid` that it may draw; a frame of an unknown socket does nothing
  unfoldable pub handle_early : List (Key × Frame W) → World W → Outcome W
  handle_early [] w = done w []
  handle_early ((uuid, frame) ∷ frames) w =
      let o = on_message env now uuid socket frame w in
      let rest = handle_early frames o.world in
      elim o.rejected [
        | none ↦ done rest.world (o.effects ++ rest.effects)
        | some e ↦ done o.world (
            o.effects
            ++ Effect.send socket
                (ServerMessage.error "UNAUTHORIZED" "Invalid or missing access token")
              ∷ Effect.close socket 1008
              ∷ [])
      ]

  unfoldable pub handle_connection_early :
      Key → Option AccessTokenPayload → List (Key × Frame W) → World W → Outcome W
  handle_connection_early ip token frames w =
      let o = handle_connection env now socket ip token w in
      let rest = handle_early frames o.world in done rest.world (o.effects ++ rest.effects)

  handle_early-Reach :
      (frames : List (Key × Frame W)) (w : World W)
      → Reach env w
      → Reach env (handle_early frames w).world
  unfolding handle_early
  handle_early-Reach [] w r = r
  handle_early-Reach ((uuid, frame) ∷ frames) w r =
      let o = on_message env now uuid socket frame w in
      let step = Reach.next r (Step.message now uuid socket frame) in
      elim (Option-cases o.rejected) [
        | inl kept ↦ rw (kept, handle_early) (handle_early-Reach frames o.world step)
        | inr (e, thrown) ↦ rw (thrown, handle_early) step
      ]

  -- Early frames lead to no world that a connection and later frames do not lead to.
  handle_connection_early-Reach :
      (ip : Key) (token : Option AccessTokenPayload) (frames : List (Key × Frame W)) (w : World W)
      → lookup socket w.sockets ≡ none
      → Reach env w
      → Reach env (handle_connection_early ip token frames w).world
  unfolding handle_connection_early
  handle_connection_early-Reach ip token frames w new r =
      handle_early-Reach frames (handle_connection env now socket ip token w).world
        (Reach.next r (Step.connect now socket ip token new))
