-- ===== src/Presence/Effects.antt =====
-- What the gateway's calls of the presence service leave in Redis.
use realtime_game_server.Base.{
  ℕ, ◌+◌, ◌≤◌, ◌≡◌, ◌≢◌, sym, true, false, Option, List, [], ◌∷◌, Key, ◌==◌, ltb, if◌then◌else◌,
  arith, ⊤, ◌⊎◌, inl, inr, Bool-cases,
}
use realtime_game_server.Presence.{Payload, set_online, set_offline, is_online}
use realtime_game_server.Presence.Commands.{Redis, RedisKey, IsRedis}
use realtime_game_server.Gateway.State.{Effect}

key_cases : (p q : Key) → (p ≡ q) ⊎ ((p ≢ q) × ((p == q) ≡ false))
key_cases p q = elim (Bool-cases (p == q)) [
  | inl e ↦ inl (ground arith)
  | inr e ↦ inr ((λ h. absurd (ground arith)), e)
]

presence-ne : (p q : Key) → p ≢ q → RedisKey.presence p ≢ RedisKey.presence q
presence-ne p q h e = h (ground (arith, e))

module _ {W : Type 0} where
  -- No effect but of the player `p` sets anybody online.
  abbrev pub AreOf : Key → List (Effect W) → Type 0
  AreOf p [] = ⊤
  AreOf p (Effect.set_online q _ ∷ es) = (q ≡ p) × AreOf p es
  AreOf p (Effect.set_offline _ ∷ es) = AreOf p es
  AreOf p (Effect.send _ _ ∷ es) = AreOf p es
  AreOf p (Effect.close _ _ ∷ es) = AreOf p es

module _ {Text S : Type 0} (redis : Redis Text S) where
  module _ (laws : IsRedis redis) (t now : ℕ) (later : t ≤ now) where
    pub is_online-set_online :
        (stringify : Payload → Text) (p q : Key) (r : Option Key) (s : S)
        → is_online redis now q (set_online redis stringify t p r s)
          ≡ (if p == q then ltb now (t + 60_000) else is_online redis now q s)
    unfolding is_online set_online
    is_online-set_online stringify p q r s =
        let v = stringify (record { player_id = p; room_id = r; last_seen = t }) in
        let after = redis.set t (RedisKey.presence p) v 60 s in
        let here = laws.exists_get now (RedisKey.presence q) after in
        elim (key_cases p q) [
          | inl same ↦
              let found = laws.get-set t now 60 (RedisKey.presence p) v s later in
              ground (arith, here, found, same)
          | inr (apart, differ) ↦
              let other =
                laws.get-set_other t now 60 (RedisKey.presence q) (RedisKey.presence p) v s later
                  (presence-ne q p (λ e. apart (sym e))) in
              ground (arith, here, other, laws.exists_get now (RedisKey.presence q) s)
        ]

    pub is_online-set_offline :
        (p q : Key) (s : S)
        → is_online redis now q (set_offline redis t p s)
          ≡ (if p == q then false else is_online redis now q s)
    unfolding is_online set_offline
    is_online-set_offline p q s =
        let after = redis.del t (RedisKey.presence p) s in
        let here = laws.exists_get now (RedisKey.presence q) after in
        elim (key_cases p q) [
          | inl same ↦
              let found = laws.get-del t now (RedisKey.presence p) s later in
              ground (arith, here, found, same)
          | inr (apart, differ) ↦
              let other =
                laws.get-del_other t now (RedisKey.presence q) (RedisKey.presence p) s later
                  (presence-ne q p (λ e. apart (sym e))) in
              ground (arith, here, other, laws.exists_get now (RedisKey.presence q) s)
        ]

  module _ {W : Type 0} (stringify : Payload → Text) where
    -- the calls of `this.presence` among what a handler has done
    unfoldable pub perform : ℕ → Effect W → S → S
    perform now (Effect.set_online p r) s = set_online redis stringify now p r s
    perform now (Effect.set_offline p) s = set_offline redis now p s
    perform now (Effect.send _ _) s = s
    perform now (Effect.close _ _) s = s

    unfoldable pub perform_all : ℕ → List (Effect W) → S → S
    perform_all now [] s = s
    perform_all now (e ∷ es) s = perform_all now es (perform now e s)

    module _ (laws : IsRedis redis) (t now : ℕ) (later : t ≤ now) (p q : Key) where
      -- Who is online after them was online before, or is `p`.
      pub perform_all_online :
          (es : List (Effect W)) (s : S)
          → AreOf p es
          → is_online redis now q (perform_all t es s) ≡ true
          → (p ≡ q) ⊎ (is_online redis now q s ≡ true)
      unfolding perform_all perform
      perform_all_online [] s a h = inr h
      perform_all_online (Effect.set_online r room ∷ es) s (own, a) h =
          elim (perform_all_online es (set_online redis stringify t r room s) a h) [
            | inl same ↦ inl same
            | inr before ↦
                let e = is_online-set_online laws t now later stringify r q room s in
                ground (arith, e, before, own)
          ]
      perform_all_online (Effect.set_offline r ∷ es) s a h =
          elim (perform_all_online es (set_offline redis t r s) a h) [
            | inl same ↦ inl same
            | inr before ↦
                let e = is_online-set_offline laws t now later r q s in ground (arith, e, before)
          ]
      perform_all_online (Effect.send _ _ ∷ es) s a h = perform_all_online es s a h
      perform_all_online (Effect.close _ _ ∷ es) s a h = perform_all_online es s a h
