-- ===== src/RateLimit.antt =====
-- `RedisRateLimiter` of src/infrastructure/redis/redis-client.ts: the script that it runs in Redis
-- (INCR, and EXPIRE on the first use), on counters that Redis drops when they expire.
pub mod Window
use realtime_game_server.Base.{
  ℕ, ◌+◌, ◌-◌, ◌*◌, Bool, Option, none, some, Key, ltb, leb, if◌then◌else◌,
}
use realtime_game_server.Base.Dict.{Dict, lookup, insert}

pub record Counter : Type 0 where
  pub count : ℕ
  pub expires_at : ℕ

pub record Verdict : Type 0 where
  pub allowed : Bool
  pub remaining : ℕ

-- the counter that Redis still has at `now`
unfoldable pub live : ℕ → Option Counter → Option Counter
live now none = none
live now (some c) = if ltb now c.expires_at then some c else none

-- the counter after the script
unfoldable pub bumped : ℕ → ℕ → Option Counter → Counter
bumped now window_seconds none = record { count = 1; expires_at = now + window_seconds * 1000 }
bumped now window_seconds (some c) = record c { count = c.count + 1 }

unfoldable pub consume : ℕ → Key → ℕ → ℕ → Dict Counter → Verdict × Dict Counter
unfolding live bumped
consume now key limit window_seconds store =
    let counter = bumped now window_seconds (live now (lookup key store)) in
    (
      record { allowed = leb counter.count limit; remaining = limit - counter.count },
      insert key counter store,
    )
