-- ===== src/Game/Snapshot.antt =====
-- src/infrastructure/game/snapshot.ts, with the snapshot types of
-- src/infrastructure/websocket/protocol.ts.
pub mod Client
pub mod RoundTrip
use realtime_game_server.Base.{
  ℕ, Bool, true, false, not, ◌&&◌, ◌||◌, Option, none, some, List, [], ◌∷◌, ◌++◌, Key, ◌==◌,
  is_some, if◌then◌else◌, filter,
}
use realtime_game_server.Base.Dict.{Dict, lookup, insert, keys, contains}
use realtime_game_server.Game.Double.{Double}
use realtime_game_server.Game.Vec3.{Vec3}
use realtime_game_server.Game.AntiCheat.{RuntimePlayerState}

pub record PlayerSnapshot (W : Type 0) : Type 0 where
  pub id : Key
  pub username : Key
  pub position : Vec3 W
  pub rotation : Vec3 W
  pub velocity : Vec3 W
  pub hp : ℕ
  pub connected : Bool
  pub ping : ℕ
  pub last_processed_input_seq : ℕ

-- `Partial<PlayerSnapshot> & { id: string }`: `none` for a key that the object lacks
pub record Patch (W : Type 0) : Type 0 where
  pub id : Key
  pub username : Option Key
  pub position : Option (Vec3 W)
  pub rotation : Option (Vec3 W)
  pub velocity : Option (Vec3 W)
  pub hp : Option ℕ
  pub connected : Option Bool
  pub ping : Option ℕ
  pub last_processed_input_seq : Option ℕ

pub record Delta (W : Type 0) : Type 0 where
  pub changes : List (Patch W)
  pub removed : List Key

module _ {W : Type 0} where
  unfoldable pub to_player_snapshot : RuntimePlayerState W → PlayerSnapshot W
  to_player_snapshot state = record {
    id = state.id;
    username = state.username;
    position = state.position;
    rotation = state.rotation;
    velocity = state.velocity;
    hp = state.hp;
    connected = state.connected;
    ping = state.ping;
    last_processed_input_seq = state.last_processed_input_seq;
  }

  -- a whole snapshot, pushed as a change
  abbrev pub whole : PlayerSnapshot W → Patch W
  whole p = record {
    id = p.id;
    username = some p.username;
    position = some p.position;
    rotation = some p.rotation;
    velocity = some p.velocity;
    hp = some p.hp;
    connected = some p.connected;
    ping = some p.ping;
    last_processed_input_seq = some p.last_processed_input_seq;
  }

  -- the loop that fills a `Map` by `set(p.id, p)`
  unfoldable pub set_all :
      List (PlayerSnapshot W) → Dict (PlayerSnapshot W) → Dict (PlayerSnapshot W)
  set_all [] m = m
  set_all (p ∷ ps) m = set_all ps (insert p.id p m)

-- the two Boolean values differ
abbrev pub differ : Bool → Bool → Bool
differ a b = if a then not b else b

-- a key of the patch is written where its field differs
abbrev pub only_if {ℓ} : {A : Type ℓ} → Bool → A → Option A
only_if c a = if c then some a else none

module _ {W : Type 0} ⦃d : Double W⦄ where
  unfoldable pub vec_differs : Vec3 W → Vec3 W → Bool
  vec_differs a b = not (d.eq a.x b.x) || not (d.eq a.y b.y) || not (d.eq a.z b.z)

  unfoldable pub dirty : PlayerSnapshot W → PlayerSnapshot W → Bool
  dirty prev p =
      vec_differs prev.position p.position
      || vec_differs prev.rotation p.rotation
      || vec_differs prev.velocity p.velocity
      || not (prev.hp == p.hp)
      || differ prev.connected p.connected
      || not (prev.ping == p.ping)
      || not (prev.last_processed_input_seq == p.last_processed_input_seq)

  unfoldable pub patch_of : PlayerSnapshot W → PlayerSnapshot W → Patch W
  patch_of prev p = record {
    id = p.id;
    username = none;
    position = only_if (vec_differs prev.position p.position) p.position;
    rotation = only_if (vec_differs prev.rotation p.rotation) p.rotation;
    velocity = only_if (vec_differs prev.velocity p.velocity) p.velocity;
    hp = only_if (not (prev.hp == p.hp)) p.hp;
    connected = only_if (differ prev.connected p.connected) p.connected;
    ping = only_if (not (prev.ping == p.ping)) p.ping;
    last_processed_input_seq =
        only_if (not (prev.last_processed_input_seq == p.last_processed_input_seq))
          p.last_processed_input_seq;
  }

  -- one round of the loop over `current`: what it pushes to `changes`
  unfoldable pub change_of : Option (PlayerSnapshot W) → PlayerSnapshot W → List (Patch W)
  change_of none p = whole p ∷ []
  change_of (some prev) p = if dirty prev p then patch_of prev p ∷ [] else []

  unfoldable pub changes_of : Dict (PlayerSnapshot W) → List (PlayerSnapshot W) → List (Patch W)
  changes_of previous [] = []
  changes_of previous (p ∷ ps) = change_of (lookup p.id previous) p ++ changes_of previous ps

  unfoldable pub compute_delta : Dict (PlayerSnapshot W) → List (PlayerSnapshot W) → Delta W
  unfolding changes_of
  compute_delta previous current =
      let current_map = set_all current [] in
      record {
        changes = changes_of previous current;
        removed = filter (λ id. not (contains id current_map)) (keys previous);
      }
