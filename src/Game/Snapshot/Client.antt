-- ===== src/Game/Snapshot/Client.antt =====
-- What a client makes of the messages: a delta, applied to the snapshots that it was computed
-- from, gives the current snapshots. This side is a specification; the repository has no client.
use realtime_game_server.Base.{
  ◌≡◌, ◌≢◌, false, Option, none, some, List, [], ◌∷◌, arith, Key, get_or, All,
}
use realtime_game_server.Base.Dict.{Dict, lookup, insert, erase}
use realtime_game_server.Game.Double.{Double, IsOrdered}
use realtime_game_server.Game.Vec3.{Vec3}
use realtime_game_server.Game.Snapshot.{
  PlayerSnapshot, Patch, Delta, vec_differs, dirty, patch_of, only_if,
}

infixl 5 ◌>>=◌
abbrev pub ◌>>=◌ {ℓ κ} : {A : Type ℓ} {B : Type κ} → Option A → (A → Option B) → Option B
none >>= k = none
some a >>= k = k a

module _ {W : Type 0} where
  -- `{ ...prev, ...patch }`
  abbrev pub merge : PlayerSnapshot W → Patch W → PlayerSnapshot W
  merge prev c = record {
    id = c.id;
    username = get_or c.username prev.username;
    position = get_or c.position prev.position;
    rotation = get_or c.rotation prev.rotation;
    velocity = get_or c.velocity prev.velocity;
    hp = get_or c.hp prev.hp;
    connected = get_or c.connected prev.connected;
    ping = get_or c.ping prev.ping;
    last_processed_input_seq = get_or c.last_processed_input_seq prev.last_processed_input_seq;
  }

  -- a snapshot from a change of a player that the client does not know, if nothing is missing
  abbrev pub complete : Patch W → Option (PlayerSnapshot W)
  complete c = do
    username ← c.username
    position ← c.position
    rotation ← c.rotation
    velocity ← c.velocity
    hp ← c.hp
    connected ← c.connected
    ping ← c.ping
    seq ← c.last_processed_input_seq
    some (record {
      id = c.id;
      username = username;
      position = position;
      rotation = rotation;
      velocity = velocity;
      hp = hp;
      connected = connected;
      ping = ping;
      last_processed_input_seq = seq;
    })

  abbrev pub merged : Option (PlayerSnapshot W) → Patch W → Option (PlayerSnapshot W)
  merged none c = complete c
  merged (some prev) c = some (merge prev c)

  abbrev pub put :
      Key → Option (PlayerSnapshot W) → Dict (PlayerSnapshot W) → Dict (PlayerSnapshot W)
  put k none view = view
  put k (some p) view = insert k p view

  unfoldable pub apply_change : Dict (PlayerSnapshot W) → Patch W → Dict (PlayerSnapshot W)
  apply_change view c = put c.id (merged (lookup c.id view) c) view

  unfoldable pub apply_changes : List (Patch W) → Dict (PlayerSnapshot W) → Dict (PlayerSnapshot W)
  apply_changes [] view = view
  apply_changes (c ∷ cs) view = apply_changes cs (apply_change view c)

  unfoldable pub erase_all : List Key → Dict (PlayerSnapshot W) → Dict (PlayerSnapshot W)
  erase_all [] view = view
  erase_all (k ∷ ks) view = erase_all ks (erase k view)

  unfoldable pub apply_delta : Delta W → Dict (PlayerSnapshot W) → Dict (PlayerSnapshot W)
  apply_delta delta view = apply_changes delta.changes (erase_all delta.removed view)

  -- The same player has the same snapshot in both.
  abbrev pub SameView : Dict (PlayerSnapshot W) → Dict (PlayerSnapshot W) → Type 0
  SameView a b = (k : Key) → lookup k a ≡ lookup k b

  -- What the previous snapshots hold of `p` is under its own identifier and name.
  abbrev pub IsTracked : Dict (PlayerSnapshot W) → PlayerSnapshot W → Type 0
  IsTracked previous p =
      (q : PlayerSnapshot W)
      → lookup p.id previous ≡ some q
      → (q.id ≡ p.id) × (q.username ≡ p.username)

  abbrev pub Distinct : List (PlayerSnapshot W) → Type 0
  Distinct [] = Unit
  Distinct (p ∷ ps) = All (λ q. p.id ≢ q.id) ps × Distinct ps

module _ {W : Type 0} ⦃d : Double W⦄ (o : IsOrdered W) where
  vec_eq : (a b : Vec3 W) → vec_differs a b ≡ false → a ≡ b
  unfolding vec_differs
  vec_eq a b h = ground (arith, o.eq_sound a.x b.x, o.eq_sound a.y b.y, o.eq_sound a.z b.z)

  get_or-only_if : (a b : Vec3 W) → get_or (only_if (vec_differs a b) b) a ≡ b
  get_or-only_if a b = ground (arith, vec_eq a b)

  -- The patch that the server computes turns the old snapshot into the new one.
  pub merge-patch_of :
      (prev p : PlayerSnapshot W) → prev.username ≡ p.username → merge prev (patch_of prev p) ≡ p
  unfolding patch_of
  merge-patch_of prev p h = ground (
    arith,
    get_or-only_if prev.position p.position,
    get_or-only_if prev.rotation p.rotation,
    get_or-only_if prev.velocity p.velocity,
  )

  -- A snapshot that is not dirty is the old one.
  pub clean_eq :
      (prev p : PlayerSnapshot W)
      → prev.id ≡ p.id
      → prev.username ≡ p.username
      → dirty prev p ≡ false
      → prev ≡ p
  unfolding dirty
  clean_eq prev p hi hu h = ground (
    arith,
    vec_eq prev.position p.position,
    vec_eq prev.rotation p.rotation,
    vec_eq prev.velocity p.velocity,
  )
