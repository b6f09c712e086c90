-- ===== src/Presence.antt =====
-- `RedisPresenceService` and `RedisSessionCache` of src/infrastructure/redis/redis-client.ts. The
-- commands of Redis and JSON are parameters; times are milliseconds.
pub mod Commands
pub mod Cache
pub mod Effects
pub mod Handlers
pub mod Backs
pub mod Reach
pub mod Reconnect
use realtime_game_server.Base.{ℕ, Bool, Option, none, some, Key, if◌then◌else◌}
use Commands.{Redis, RedisKey}

-- what `setOnline` writes
pub record Payload : Type 0 where
  pub player_id : Key
  pub room_id : Option Key
  pub last_seen : ℕ

module _ {Text S : Type 0} (redis : Redis Text S) where
  module _ (stringify : Payload → Text) where
    unfoldable pub set_online : ℕ → Key → Option Key → S → S
    set_online now player_id room_id s =
        let payload : Payload = record {
          player_id = player_id;
          room_id = room_id;
          last_seen = now;
        } in
        redis.set now (RedisKey.presence player_id) (stringify payload) 60 s

    unfoldable pub heartbeat : ℕ → Key → Option Key → S → S
    heartbeat now player_id room_id s = set_online now player_id room_id s

  unfoldable pub set_offline : ℕ → Key → S → S
  set_offline now player_id s = redis.del now (RedisKey.presence player_id) s

  unfoldable pub is_online : ℕ → Key → S → Bool
  is_online now player_id s = redis.exists now (RedisKey.presence player_id) s

  -- the session cache, over the data of a session
  module _ {Data : Type 0} (stringify : Data → Text) (parse : Text → Data)
      (is_empty : Text → Bool) where
    abbrev pub default_ttl_seconds : ℕ
    default_ttl_seconds = 3600

    unfoldable pub cache_set : ℕ → Key → Data → ℕ → S → S
    cache_set now session_id content ttl_seconds s =
        redis.set now (RedisKey.session session_id) (stringify content) ttl_seconds s

    unfoldable pub cache_get : ℕ → Key → S → Option Data
    cache_get now session_id s = elim (redis.get now (RedisKey.session session_id) s) [
      | none ↦ none
      | some raw ↦ if is_empty raw then none else some (parse raw)
    ]

    unfoldable pub cache_delete : ℕ → Key → S → S
    cache_delete now session_id s = redis.del now (RedisKey.session session_id) s
