-- ===== src/Game/Session/Loop.antt =====
-- The loop of a tick over the players, in closed form: each player advances by its own queue.
use realtime_game_server.Base.{
  ℕ, ◌≡◌, refl, Option, none, some, List, [], ◌∷◌, arith, Key, ◌==◌, if◌then◌else◌, get_or, is_some,
}
use realtime_game_server.Base.Dict.{Dict, lookup, insert, lookup-insert, IsMap, insert-IsMap}
use realtime_game_server.Game.Double.{Double}
use realtime_game_server.Game.AntiCheat.{
  RuntimePlayerState, MovementInput, validate_and_apply_movement,
}
use realtime_game_server.Game.Session.{
  Settings, GameSession, check_heartbeat, visit, visit_all, drain,
}
use realtime_game_server.Game.Session.Drain.{settled, lookup-drain}

module _ {W : Type 0} ⦃d : Double W⦄ (env : Settings W) (now : ℕ) where
  -- The state of a player after a tick, from its queue and its state before.
  unfoldable pub advance : List (MovementInput W) → RuntimePlayerState W → RuntimePlayerState W
  advance queue state =
      let state' = check_heartbeat env now state in settled env.max_move_speed state' state' queue

  lookup-visit :
      (id j : Key) (state : RuntimePlayerState W) (s : GameSession W)
      → lookup j (visit env now id state s).players ≡ (
          if id == j
          then some (advance (get_or (lookup id s.pending_inputs) []) state)
          else lookup j s.players)
  unfolding visit advance
  lookup-visit id j state s =
      let state' = check_heartbeat env now state in
      ground (
        arith,
        lookup-drain env.max_move_speed id j state' state' (get_or (lookup id s.pending_inputs) [])
            (insert id state' s.players),
        lookup-insert id id state' s.players,
        lookup-insert id j state' s.players,
      )

  pending-visit :
      (id j : Key) (state : RuntimePlayerState W) (s : GameSession W)
      → lookup j (visit env now id state s).pending_inputs ≡ (
          if id == j
          then (if is_some (lookup id s.pending_inputs) then some [] else none)
          else lookup j s.pending_inputs)
  unfolding visit
  pending-visit id j state s = ground (arith, lookup-insert id j [] s.pending_inputs)

  abbrev pub advanced :
      Option (RuntimePlayerState W)
      → Option (List (MovementInput W))
      → Option (RuntimePlayerState W)
      → Option (RuntimePlayerState W)
  advanced none queue old = old
  advanced (some state) queue old = some (advance (get_or queue []) state)

  -- After the loop each player that was visited has advanced by its queue; the others are as before.
  pub lookup-visit_all :
      (j : Key) (entries : Dict (RuntimePlayerState W)) (s : GameSession W)
      → IsMap entries
      → lookup j (visit_all env now entries s).players
        ≡ advanced (lookup j entries) (lookup j s.pending_inputs) (lookup j s.players)
  unfolding visit_all lookup
  lookup-visit_all j [] s h = refl
  lookup-visit_all j ((id, state) ∷ entries) s h = ground (
    arith,
    lookup-visit_all j entries (visit env now id state s) h.1,
    lookup-visit id j state s,
    pending-visit id j state s,
  )

  -- A queue that was visited is empty after the loop, the others are as before.
  pub pending-visit_all :
      (j : Key) (entries : Dict (RuntimePlayerState W)) (s : GameSession W)
      → lookup j (visit_all env now entries s).pending_inputs ≡ (
          if is_some (lookup j entries)
          then (if is_some (lookup j s.pending_inputs) then some [] else none)
          else lookup j s.pending_inputs)
  unfolding visit_all lookup
  pending-visit_all j [] s = refl
  pending-visit_all j ((id, state) ∷ entries) s =
      ground
        (arith, pending-visit_all j entries (visit env now id state s), pending-visit id j state s)

  -- What the loop leaves alone.
  pub visit_all_frame :
      (entries : Dict (RuntimePlayerState W)) (s : GameSession W)
      → let s' = visit_all env now entries s in
        (s'.room_id ≡ s.room_id)
        × (s'.tick ≡ s.tick)
        × (s'.timer ≡ s.timer)
        × (s'.previous_snapshots ≡ s.previous_snapshots)
  unfolding visit_all visit
  visit_all_frame [] s = (refl, refl, refl, refl)
  visit_all_frame ((id, state) ∷ entries) s = visit_all_frame entries (visit env now id state s)

  drain-IsMap :
      (id : Key) (state : RuntimePlayerState W) (queue : List (MovementInput W))
      (players : Dict (RuntimePlayerState W))
      → IsMap players
      → IsMap (drain env.max_move_speed id state queue players)
  unfolding drain
  drain-IsMap id state [] players h = h
  drain-IsMap id state (i ∷ queue) players h =
      let result = validate_and_apply_movement env.max_move_speed state i in
      drain-IsMap id state queue
        (if result.accepted then insert id result.state players else players)
        (ground (arith, insert-IsMap id result.state players h))

  pub visit_all-IsMap :
      (entries : Dict (RuntimePlayerState W)) (s : GameSession W)
      → IsMap s.players
      → IsMap (visit_all env now entries s).players
  unfolding visit_all visit
  visit_all-IsMap [] s h = h
  visit_all-IsMap ((id, state) ∷ entries) s h =
      let state' = check_heartbeat env now state in
      visit_all-IsMap entries (visit env now id state s) (
        drain-IsMap id state' (get_or (lookup id s.pending_inputs) []) (insert id state' s.players)
          (insert-IsMap id state' s.players h))
