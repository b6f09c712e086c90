-- ===== src/Game/Session/Late.antt =====
-- Late heartbeats.
use realtime_game_server.Base.{
  ℕ, ◌+◌, ◌≡◌, refl, Bool, false, not, ◌&&◌, ◌||◌, Option, none, some, List, [], ◌∷◌, ◌++◌, Key,
  ◌==◌, get_or, arith, any, ltb, ◌-◌,
}
use realtime_game_server.Base.Dict.{Dict, lookup, IsMap}
use realtime_game_server.Game.Double.{Double}
use realtime_game_server.Game.AntiCheat.{RuntimePlayerState}
use realtime_game_server.Game.Session.{
  Settings, GameSession, Event, player_disconnected, snapshot, step, late, check_heartbeat,
  disconnects, delta_events, publish, visit_all,
}
use realtime_game_server.Game.Session.Drain.{settled-SameFrame, SameFrame-refl}
use realtime_game_server.Game.Session.Loop.{advance}
use realtime_game_server.Game.Session.Advance.{step-players}
use realtime_game_server.Game.Session.Invariant.{IsValid}

module _ {W : Type 0} where
  -- the player is reported as disconnected
  abbrev pub is_report : Key → Event W → Bool
  is_report id (snapshot _) = false
  is_report id (player_disconnected j) = j == id

  abbrev pub is_connected : Option (RuntimePlayerState W) → Bool
  is_connected none = false
  is_connected (some player) = player.connected

module _ {W : Type 0} ⦃d : Double W⦄ (env : Settings W) (now : ℕ) where
  advance_connected :
      (queue : List _) (p : RuntimePlayerState W)
      → (advance env now queue p).connected ≡ (p.connected && not (late env now p))
  unfolding advance check_heartbeat late
  advance_connected queue p =
      let p' = check_heartbeat env now p in
      ground
        (arith, (settled-SameFrame env.max_move_speed p' p' queue (SameFrame-refl p')).connected)

  any-append :
      (id : Key) (es fs : List (Event W))
      → any (is_report id) (es ++ fs) ≡ (any (is_report id) es || any (is_report id) fs)
  any-append id [] fs = refl
  any-append id (e ∷ es) fs = ground (arith, any-append id es fs)

  unreported :
      (id : Key) (entries : Dict (RuntimePlayerState W))
      → lookup id entries ≡ none
      → any (is_report id) (disconnects env now entries) ≡ false
  unfolding disconnects lookup
  unreported id [] h = refl
  unreported id ((k, p) ∷ entries) h = ground (arith, unreported id entries)

  reported :
      (id : Key) (p : RuntimePlayerState W) (entries : Dict (RuntimePlayerState W))
      → IsMap entries
      → lookup id entries ≡ some p
      → any (is_report id) (disconnects env now entries) ≡ late env now p
  unfolding disconnects lookup
  reported id p [] m h = absurd (ground arith)
  reported id p ((k, q) ∷ entries) m h =
      ground (arith, m, reported id p entries, unreported id entries)

  publish_unreported : (id : Key) (s : GameSession W) → any (is_report id) (publish now s).1 ≡ false
  unfolding publish delta_events
  publish_unreported id s = ground arith

  -- In a valid session, a player of the session is connected after a tick exactly if it was before
  -- and its last heartbeat is not older than the timeout, and the tick reports its disconnection
  -- exactly if it was connected and the heartbeat is older.
  pub step-late :
      (id : Key) (p : RuntimePlayerState W) (s : GameSession W)
      → IsValid s
      → lookup id s.players ≡ some p
      → (is_connected (lookup id (step env now s).0.players)
          ≡ (p.connected && not (ltb env.heartbeat_timeout_ms (now - p.last_heartbeat_at))))
        × (any (is_report id) (step env now s).1
            ≡ (p.connected && ltb env.heartbeat_timeout_ms (now - p.last_heartbeat_at)))
  unfolding step late
  step-late id p s v found = (
    rw ((step-players env now s id v).0, found)
        (ground (arith, advance_connected (get_or (lookup id s.pending_inputs) []) p)),
    (let s₁ = visit_all env now s.players (record s { tick = s.tick + 1 }) in
        ground (
          arith,
          any-append id (disconnects env now s.players) (publish now s₁).1,
          reported id p s.players v.players_map found,
          publish_unreported id s₁,
        )),
  )
