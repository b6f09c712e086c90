-- ===== src/Tests/Presence.antt =====
-- The theorems on who is online, with a small Redis.
use realtime_game_server.Base.{
  ℕ, ◌+◌, ◌*◌, ◌≡◌, ◌≢◌, refl, Bool, true, false, Option, none, some, Key, ltb, ◌==◌, if◌then◌else◌,
  is_some, arith, ap, Bool-cases, inl, inr,
}
use realtime_game_server.Base.Int.{ℤ}
use realtime_game_server.Base.Dict.{lookup}
use realtime_game_server.RateLimit.{consume, live, bumped}
use realtime_game_server.Gateway.State.{World}
use realtime_game_server.Gateway.Connect.{handle_connection, replace_existing_socket, on_close}
use realtime_game_server.Gateway.Reach.{started}
use realtime_game_server.Presence.{Payload, is_online, set_online}
use realtime_game_server.Presence.Commands.{Redis, RedisKey, IsRedis}
use realtime_game_server.Presence.Effects.{perform, perform_all}
use realtime_game_server.Presence.Backs.{HasSocket}
use realtime_game_server.Presence.Reach.{Event, Reach, Reach-IsHonest}
use realtime_game_server.Presence.Reconnect.{reconnect-on_close}
use realtime_game_server.Tests.Fixed.{thousandths}
use realtime_game_server.Tests.Gateway.{settings, lobby, payload, context, world, known}

abbrev same_key : RedisKey → RedisKey → Bool
same_key (RedisKey.presence a) (RedisKey.presence b) = a == b
same_key (RedisKey.session a) (RedisKey.session b) = a == b
same_key (RedisKey.presence _) (RedisKey.session _) = false
same_key (RedisKey.session _) (RedisKey.presence _) = false

-- a key's text and the end of its time
abbrev Store : Type 0
Store = RedisKey → Option (ℕ × ℕ)

abbrev unexpired : ℕ → Option (ℕ × ℕ) → Option ℕ
unexpired now none = none
unexpired now (some (v, e)) = if ltb now e then some v else none

abbrev redis : Redis ℕ Store
redis = record {
  set = λ t k v seconds s j. if same_key k j then some (v, t + seconds * 1000) else s j;
  del = λ t k s j. if same_key k j then none else s j;
  exists = λ now k s. is_some (unexpired now (s k));
  get = λ now k s. unexpired now (s k);
}

same_key_self : (k : RedisKey) → same_key k k ≡ true
same_key_self (RedisKey.presence a) = ground arith
same_key_self (RedisKey.session a) = ground arith

same_key_eq : (k j : RedisKey) → same_key k j ≡ true → j ≡ k
same_key_eq (RedisKey.presence a) (RedisKey.presence b) h = ap RedisKey.presence (ground (arith, h))
same_key_eq (RedisKey.session a) (RedisKey.session b) h = ap RedisKey.session (ground (arith, h))
same_key_eq (RedisKey.presence _) (RedisKey.session _) h = absurd (ground (arith, h))
same_key_eq (RedisKey.session _) (RedisKey.presence _) h = absurd (ground (arith, h))

same_key_apart : (k j : RedisKey) → j ≢ k → same_key k j ≡ false
same_key_apart k j n = elim (Bool-cases (same_key k j)) [
  | inl same ↦ absurd (n (same_key_eq k j same))
  | inr apart ↦ apart
]

redis-IsRedis : IsRedis redis
redis-IsRedis = record {
  exists_get = λ now k s. refl;
  get-set = λ t now seconds k v s l. rw (same_key_self k) refl;
  get-set_other = λ t now seconds j k v s l n. rw (same_key_apart k j n) refl;
  get-del = λ t now k s l. rw (same_key_self k) refl;
  get-del_other = λ t now j k s l n. rw (same_key_apart k j n) refl;
}

abbrev stringify : Payload → ℕ
stringify p = p.last_seen

abbrev nothing : Store
nothing k = none

-- player 1 connects at 100 with socket 5
abbrev online : Store
online =
    perform_all redis stringify 100
      (handle_connection settings 100 5 6 (some payload) (started lobby)).effects nothing

abbrev connected : World ℤ
connected = (handle_connection settings 100 5 6 (some payload) (started lobby)).world

no_socket : lookup 5 (started {W = ℤ} lobby).sockets ≡ none
unfolding lookup
no_socket = refl

nobody : (now : ℕ) (q : Key) → is_online redis now q nothing ≡ false
unfolding is_online
nobody now q = refl

history : Reach redis stringify settings 100 connected online
history =
    Reach.next (Reach.here lobby nothing nobody) 100 (omega arith)
      (Event.connect 5 6 (some payload) no_socket)

still_online : is_online redis 60_000 1 online ≡ true
unfolding is_online perform_all perform set_online handle_connection replace_existing_socket lookup
    consume live bumped
still_online = refl

Reach-IsHonest_example : HasSocket 1 connected
Reach-IsHonest_example =
    Reach-IsHonest redis stringify settings redis-IsRedis history 60_000 1 (omega arith)
      still_online

-- player 1 connects again at 200 with socket 7, and its socket 5 closes at 300
first_socket : lookup 1 world.sockets_by_player ≡ some 5
unfolding lookup
first_socket = refl

new_socket : lookup 7 world.sockets ≡ none
unfolding lookup
new_socket = refl

let_in : (consume 200 6 60 60 world.connect_counters).0.allowed ≡ true
unfolding consume lookup live bumped
let_in = refl

reconnect-on_close_example :
    let entered = handle_connection settings 200 7 6 (some payload) world in
    let after = on_close 5 entered.world in
    (after.world ≡ entered.world)
    × (is_online redis 60_000 1 (
          perform_all redis stringify 300 after.effects
            (perform_all redis stringify 200 entered.effects nothing))
        ≡ true)
reconnect-on_close_example =
    reconnect-on_close settings 200 7 6 payload world 5 context first_socket known new_socket let_in
      redis stringify 300 60_000 nothing redis-IsRedis (omega arith) (omega arith) (omega arith)
