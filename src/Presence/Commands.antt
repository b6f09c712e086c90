-- ===== src/Presence/Commands.antt =====
-- The commands of Redis that src/infrastructure/redis/redis-client.ts calls, and what it relies on.
use realtime_game_server.Base.{
  ℕ, ◌+◌, ◌*◌, ◌≤◌, ◌≡◌, ◌≢◌, Bool, Option, none, some, Key, ltb, if◌then◌else◌, is_some,
}

-- `presence:${playerId}` and `session:${sessionId}`
pub data RedisKey : Type 0 where
  presence session : Key → RedisKey

-- SET with EX, DEL, EXISTS and GET, at a time
pub record Redis (Text S : Type 0) : Type 0 where
  pub set : ℕ → RedisKey → Text → (seconds : ℕ) → S → S
  pub del : ℕ → RedisKey → S → S
  pub exists : ℕ → RedisKey → S → Bool
  pub get : ℕ → RedisKey → S → Option Text

-- A key holds what was last written until its seconds are over, and nothing after it is deleted; a
-- write or a deletion of one key leaves the others.
pub record IsRedis {Text S : Type 0} (redis : Redis Text S) : Type 0 where
  pub exists_get :
      (now : ℕ) (k : RedisKey) (s : S) → redis.exists now k s ≡ is_some (redis.get now k s)
  pub get-set :
      (t now seconds : ℕ) (k : RedisKey) (v : Text) (s : S)
      → t ≤ now
      → redis.get now k (redis.set t k v seconds s)
        ≡ (if ltb now (t + seconds * 1000) then some v else none)
  pub get-set_other :
      (t now seconds : ℕ) (j k : RedisKey) (v : Text) (s : S)
      → t ≤ now
      → j ≢ k
      → redis.get now j (redis.set t k v seconds s) ≡ redis.get now j s
  pub get-del :
      (t now : ℕ) (k : RedisKey) (s : S) → t ≤ now → redis.get now k (redis.del t k s) ≡ none
  pub get-del_other :
      (t now : ℕ) (j k : RedisKey) (s : S)
      → t ≤ now
      → j ≢ k
      → redis.get now j (redis.del t k s) ≡ redis.get now j s
