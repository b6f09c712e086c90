-- ===== src/Game/Session/Drain.antt =====
-- The input loop of a tick, in closed form.
use realtime_game_server.Base.{
  ◌≡◌, true, some, List, [], ◌∷◌, arith, Key, ◌==◌, if◌then◌else◌, Bool-cases, inl, inr, ◌≤◌,
}
use realtime_game_server.Base.Dict.{Dict, lookup, insert, lookup-insert}
use realtime_game_server.Game.Double.{Double}
use realtime_game_server.Game.AntiCheat.{
  RuntimePlayerState, MovementInput, validate_and_apply_movement,
}
use realtime_game_server.Game.AntiCheat.Movement.{movement_frame, accepted_limits, accepted_seq}
use realtime_game_server.Game.Session.{drain}

-- What a queue of inputs leaves alone; the last processed sequence number only grows.
pub record SameFrame {W : Type 0} (s t : RuntimePlayerState W) : Type 0 where
  pub id : t.id ≡ s.id
  pub username : t.username ≡ s.username
  pub connected : t.connected ≡ s.connected
  pub hp : t.hp ≡ s.hp
  pub seq : s.last_processed_input_seq ≤ t.last_processed_input_seq

pub SameFrame-refl : {W : Type 0} (s : RuntimePlayerState W) → SameFrame s s
SameFrame-refl s = ground arith

module _ {W : Type 0} ⦃d : Double W⦄ (max_speed : W) where
  -- The state after a queue: that of the last accepted input, and `last` if none is accepted. Each
  -- input is applied to `state`, not to the result of the one before it.
  unfoldable pub settled :
      RuntimePlayerState W → RuntimePlayerState W → List (MovementInput W) → RuntimePlayerState W
  settled state last [] = last
  settled state last (input ∷ queue) =
      let result = validate_and_apply_movement max_speed state input in
      settled state (if result.accepted then result.state else last) queue

  -- Draining a queue writes the settled state under the player's own key and nothing else.
  pub lookup-drain :
      (id j : Key) (state last : RuntimePlayerState W) (queue : List (MovementInput W))
      (players : Dict (RuntimePlayerState W))
      → lookup id players ≡ some last
      → lookup j (drain max_speed id state queue players)
        ≡ (if id == j then some (settled state last queue) else lookup j players)
  unfolding drain settled
  lookup-drain id j state last [] players h = ground arith
  lookup-drain id j state last (input ∷ queue) players h =
      let result = validate_and_apply_movement max_speed state input in
      elim (Bool-cases result.accepted) [
        | inl yes' ↦ rw yes' (
            ground (
              arith,
              lookup-drain id j state result.state queue (insert id result.state players),
              lookup-insert id id result.state players,
              lookup-insert id j result.state players,
            ))
        | inr no' ↦ rw no' (lookup-drain id j state last queue players h)
      ]

  -- If two queued inputs are each accepted from the state at the start of the tick, the player's
  -- state after the queue is the second input's result from that state: what the first one did is
  -- lost.
  pub drain_pair :
      (id : Key) (s : RuntimePlayerState W) (i j : MovementInput W)
      (players : Dict (RuntimePlayerState W))
      → lookup id players ≡ some s
      → (validate_and_apply_movement max_speed s i).accepted ≡ true
      → (validate_and_apply_movement max_speed s j).accepted ≡ true
      → lookup id (drain max_speed id s (i ∷ j ∷ []) players)
        ≡ some (validate_and_apply_movement max_speed s j).state
  unfolding settled
  drain_pair id s i j players found hi hj =
      ground (arith, lookup-drain id id s s (i ∷ j ∷ []) players)

  pub settled-SameFrame :
      (s last : RuntimePlayerState W) (queue : List (MovementInput W))
      → SameFrame s last
      → SameFrame s (settled s last queue)
  unfolding settled
  settled-SameFrame s last [] h = h
  settled-SameFrame s last (i ∷ queue) h =
      settled-SameFrame s
        (if (validate_and_apply_movement max_speed s i).accepted
          then (validate_and_apply_movement max_speed s i).state
          else last)
        queue
        (ground (
          arith,
          movement_frame max_speed s i,
          accepted_limits max_speed s i,
          accepted_seq max_speed s i,
        ))
