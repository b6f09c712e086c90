-- ===== src/Game/Session/Current.antt =====
-- The current snapshots of a session as a map: one for each player.
use realtime_game_server.Base.{◌≡◌, refl, ◌≢◌, Option, none, some, [], ◌∷◌, map, arith, Key, All}
use realtime_game_server.Base.Dict.{Dict, lookup, insert, values, lookup-insert, IsMap, AllEntries}
use realtime_game_server.Game.AntiCheat.{RuntimePlayerState}
use realtime_game_server.Game.Snapshot.{PlayerSnapshot, to_player_snapshot, set_all}
use realtime_game_server.Game.Snapshot.Client.{Distinct}
use realtime_game_server.Game.Snapshot.RoundTrip.{lookup-set_all}

module _ {W : Type 0} where
  abbrev pub shown : Option (RuntimePlayerState W) → Option (PlayerSnapshot W)
  shown none = none
  shown (some p) = some (to_player_snapshot p)

  abbrev pub IsKeyed : Dict (RuntimePlayerState W) → Type 0
  IsKeyed = AllEntries (λ k p. p.id ≡ k)

  pub lookup-set_all-current :
      (j : Key) (d : Dict (RuntimePlayerState W))
      → IsMap d
      → IsKeyed d
      → lookup j (set_all (map to_player_snapshot (values d)) []) ≡ shown (lookup j d)
  unfolding set_all values lookup to_player_snapshot
  lookup-set_all-current j [] m h = refl
  lookup-set_all-current j ((k, p) ∷ d) m h = ground (
    arith,
    lookup-set_all-current j d m.1 h.1,
    lookup-set_all j (map to_player_snapshot (values d)) (insert p.id (to_player_snapshot p) []),
    lookup-insert p.id j (to_player_snapshot p) [],
  )

  other_ids :
      (k : Key) (d : Dict (RuntimePlayerState W))
      → lookup k d ≡ none
      → IsKeyed d
      → All (λ q. k ≢ q.id) (map to_player_snapshot (values d))
  unfolding values lookup to_player_snapshot
  other_ids k [] e h = tt
  other_ids k ((j, p) ∷ d) e h = (ground arith, other_ids k d (ground arith) h.1)

  pub current-Distinct :
      (d : Dict (RuntimePlayerState W))
      → IsMap d
      → IsKeyed d
      → Distinct (map to_player_snapshot (values d))
  unfolding values to_player_snapshot
  current-Distinct [] m h = tt
  current-Distinct ((k, p) ∷ d) m h =
      (other_ids p.id d (ground arith) h.1, current-Distinct d m.1 h.1)

  pub All-current :
      (P : PlayerSnapshot W → Type 0) (d : Dict (RuntimePlayerState W))
      → AllEntries (λ k p. P (to_player_snapshot p)) d
      → All P (map to_player_snapshot (values d))
  unfolding values
  All-current P [] h = tt
  All-current P ((k, p) ∷ d) h = (h.0, All-current P d h.1)
