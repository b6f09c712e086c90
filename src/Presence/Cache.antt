-- ===== src/Presence/Cache.antt =====
-- What `RedisSessionCache` gives back.
use realtime_game_server.Base.{
  ℕ, ◌+◌, ◌*◌, ◌≤◌, ◌≡◌, ◌≢◌, Bool, false, none, some, Key, ltb, if◌then◌else◌, arith,
}
use realtime_game_server.Presence.{cache_set, cache_get, cache_delete}
use realtime_game_server.Presence.Commands.{Redis, RedisKey, IsRedis}

session-ne : (j k : Key) → j ≢ k → RedisKey.session j ≢ RedisKey.session k
session-ne j k h e = h (ground (arith, e))

module _ {Text S Content : Type 0} (redis : Redis Text S) (laws : IsRedis redis)
    (stringify : Content → Text) (parse : Text → Content) (is_empty : Text → Bool) (t now : ℕ)
    (later : t ≤ now) (s : S) where
  -- What was written is read back until its seconds are over, and then nothing is.
  cache_get-cache_set :
      (id : Key) (content : Content) (seconds : ℕ)
      → parse (stringify content) ≡ content
      → is_empty (stringify content) ≡ false
      → cache_get redis stringify parse is_empty now id
          (cache_set redis stringify parse is_empty t id content seconds s)
        ≡ (if ltb now (t + seconds * 1000) then some content else none)
  unfolding cache_get cache_set
  cache_get-cache_set id content seconds back full =
      let e = laws.get-set t now seconds (RedisKey.session id) (stringify content) s later in
      ground (arith, e, back, full)

  -- A session that was deleted is not read.
  cache_get-cache_delete :
      (id : Key)
      → cache_get redis stringify parse is_empty now id
          (cache_delete redis stringify parse is_empty t id s)
        ≡ none
  unfolding cache_get cache_delete
  cache_get-cache_delete id =
      let e = laws.get-del t now (RedisKey.session id) s later in ground (arith, e)

  -- Another session is read as before.
  cache_get-cache_set_other :
      (j id : Key) (content : Content) (seconds : ℕ)
      → j ≢ id
      → cache_get redis stringify parse is_empty now j
          (cache_set redis stringify parse is_empty t id content seconds s)
        ≡ cache_get redis stringify parse is_empty now j s
  unfolding cache_get cache_set
  cache_get-cache_set_other j id content seconds apart =
      let e =
        laws.get-set_other t now seconds (RedisKey.session j) (RedisKey.session id)
          (stringify content) s later (session-ne j id apart) in
      ground (arith, e)
