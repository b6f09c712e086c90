-- ===== src/Game/Session/Advance.antt =====
-- What a tick does to the players and their queues.
use realtime_game_server.Base.{
  ℕ, ◌+◌, ◌≡◌, none, some, [], Key, is_some, if◌then◌else◌, Option-cases, inl, inr, arith,
}
use realtime_game_server.Base.Dict.{lookup}
use realtime_game_server.Game.Double.{Double}
use realtime_game_server.Game.Session.{Settings, GameSession, step, visit_all}
use realtime_game_server.Game.Session.Loop.{advanced, lookup-visit_all, pending-visit_all}
use realtime_game_server.Game.Session.Invariant.{IsValid}
use realtime_game_server.Game.Session.Replica.{publish_frame}

module _ {W : Type 0} ⦃d : Double W⦄ (env : Settings W) (now : ℕ) where
  -- In a valid session a tick takes each player to the state that its heartbeat and its own queue
  -- lead to, adds and drops nobody, and leaves every queue empty.
  pub step-players :
      (s : GameSession W) (j : Key)
      → IsValid s
      → (lookup j (step env now s).0.players
          ≡ advanced env now (lookup j s.players) (lookup j s.pending_inputs) none)
        × (lookup j (step env now s).0.pending_inputs
            ≡ (if is_some (lookup j s.players) then some [] else none))
  unfolding step
  step-players s j v =
      let s₀ = record s { tick = s.tick + 1 } in
      let frame = publish_frame now (visit_all env now s.players s₀) in
      let moved = lookup-visit_all env now j s.players s₀ v.players_map in
      let emptied = pending-visit_all env now j s.players s₀ in
      rw (frame.0, frame.1, moved, emptied)
        (elim (Option-cases (lookup j s.players)) [
          | inl absent ↦ ground (arith, v.queued j)
          | inr (p, found) ↦ ground (arith, v.queued j)
        ])
