-- ===== src/Game/Session/TickInvariant.antt =====
-- A tick and the well-formedness of a session.
use realtime_game_server.Base.{ℕ, ◌≡◌, inl, inr, some, List, [], arith, Key, get_or, Option-cases}
use realtime_game_server.Base.Dict.{lookup}
use realtime_game_server.Game.Double.{Double}
use realtime_game_server.Game.AntiCheat.{RuntimePlayerState, MovementInput}
use realtime_game_server.Game.Session.{Settings, GameSession, check_heartbeat, visit_all}
use realtime_game_server.Game.Session.Drain.{SameFrame-refl, settled-SameFrame}
use realtime_game_server.Game.Session.Loop.{
  advance, lookup-visit_all, pending-visit_all, visit_all_frame, visit_all-IsMap,
}
use realtime_game_server.Game.Session.Invariant.{IsValid}

module _ {W : Type 0} ⦃d : Double W⦄ (env : Settings W) (now : ℕ) where
  -- A tick changes neither the identifier nor the name of a player.
  pub advance_frame :
      (queue : List (MovementInput W)) (p : RuntimePlayerState W)
      → ((advance env now queue p).id ≡ p.id) × ((advance env now queue p).username ≡ p.username)
  unfolding advance check_heartbeat
  advance_frame queue p =
      let p' = check_heartbeat env now p in
      let same = settled-SameFrame env.max_move_speed p' p' queue (SameFrame-refl p') in
      ground (arith, same.id, same.username)

  -- A player of the session after the loop was one before it.
  visited_player :
      (s : GameSession W) (k : Key) (p : RuntimePlayerState W)
      → IsValid s
      → lookup k (visit_all env now s.players s).players ≡ some p
      → (old : RuntimePlayerState W) × (lookup k s.players ≡ some old)
        × (p.id ≡ old.id)
        × (p.username ≡ old.username)
  visited_player s k p v e =
      let at_k = lookup-visit_all env now k s.players s v.players_map in
      let queue = get_or (lookup k s.pending_inputs) [] in
      elim (Option-cases (lookup k s.players)) [
        | inl missing ↦ absurd (ground (arith, at_k))
        | inr (old, found) ↦ (
          old,
          found,
          ground (arith, at_k, advance_frame queue old),
          ground (arith, at_k, advance_frame queue old),
        )
      ]

  pub visit_all-IsValid : (s : GameSession W) → IsValid s → IsValid (visit_all env now s.players s)
  visit_all-IsValid s v =
      let frame = visit_all_frame env now s.players s in
      record {
        players_map = visit_all-IsMap env now s.players s v.players_map;
        keyed = λ k p e.
            let (old, found, hi, hu) = visited_player s k p v e in ground (arith, v.keyed k old);
        queued = λ k. ground (
          arith,
          lookup-visit_all env now k s.players s v.players_map,
          pending-visit_all env now k s.players s,
          v.queued k,
        );
        bounded = λ k q e. ground (arith, pending-visit_all env now k s.players s, v.bounded k q);
        tracked = λ k p q e f.
            let (old, found, hi, hu) = visited_player s k p v e in
            ground (arith, frame.3, v.tracked k old q);
        known = λ k e.
            ground
              (arith, frame.3, v.known k, lookup-visit_all env now k s.players s v.players_map);
      }
