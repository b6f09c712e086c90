-- ===== src/RateLimit/Window.antt =====
-- Uses of the rate limiter in one window.
use realtime_game_server.Base.{
  ℕ, ◌+◌, ◌-◌, ◌*◌, ◌<◌, ◌≡◌, false, none, some, List, [], ◌∷◌, arith, Key, leb, ◌==◌,
  if◌then◌else◌, All, length,
}
use realtime_game_server.Base.Dict.{Dict, lookup, insert, lookup-insert, lookup-insert_self}
use realtime_game_server.RateLimit.{Counter, live, bumped, consume}

-- uses of one key at the given times; how many were allowed, and the counters after them
pub run : Key → ℕ → ℕ → List ℕ → Dict Counter → ℕ × Dict Counter
run key limit window [] store = (0, store)
run key limit window (now ∷ times) store =
    let (verdict, store') = consume now key limit window store in
    let (allowed, final) = run key limit window times store' in
    ((if verdict.allowed then 1 else 0) + allowed, final)

-- `a - b` at least zero, and the minimum, in the form the count takes
abbrev room_left : ℕ → ℕ → ℕ
room_left limit used = limit - used

abbrev smaller : ℕ → ℕ → ℕ
smaller a b = if leb a b then a else b

-- While a counter lives, exactly as many of the uses are allowed as the limit has left.
run_live :
    (key limit window : ℕ) (times : List ℕ) (c : Counter) (store : Dict Counter)
    → lookup key store ≡ some c
    → All (λ now. now < c.expires_at) times
    → (run key limit window times store).0 ≡ smaller (length times) (room_left limit c.count)
unfolding run consume
run_live key limit window [] c store h a = ground arith
run_live key limit window (now ∷ times) c store h (lives, a) =
    let c' : Counter = record c { count = c.count + 1 } in
    ground (
      arith,
      h,
      lives,
      run_live key limit window times c' (insert key c' store) (lookup-insert_self key c' store) a,
    )

-- In a window that the first use opens, the first `limit` uses are allowed and the others refused:
-- of uses that all come before the window ends, as many are allowed as there are, at most `limit`.
pub run_window :
    (key limit window start : ℕ) (times : List ℕ) (store : Dict Counter)
    → live start (lookup key store) ≡ none
    → All (λ now. now < start + window * 1000) times
    → (run key limit window (start ∷ times) store).0 ≡ smaller (length times + 1) limit
unfolding run consume
run_window key limit window start times store fresh a =
    let c : Counter = record { count = 1; expires_at = start + window * 1000 } in
    ground (
      arith,
      fresh,
      run_live key limit window times c (insert key c store) (lookup-insert_self key c store) a,
    )

-- A use under one key does not change what another key is answered.
consume_other :
    (now now' key key' limit limit' window window' : ℕ) (store : Dict Counter)
    → (key == key') ≡ false
    → (consume now' key' limit' window' (consume now key limit window store).1).0
      ≡ (consume now' key' limit' window' store).0
unfolding consume
consume_other now now' key key' limit limit' window window' store h =
    ground (arith, lookup-insert key key' (bumped now window (live now (lookup key store))) store)
