-- ===== src/Api/Health.antt =====
-- The routes of src/app.ts that the rate limit leaves out: `/health` and `/ready`. What `ping` answers
-- is an argument, `none` where it throws.
use realtime_game_server.Base.{
  ℕ, ◌≡◌, refl, Bool, true, false, ◌||◌, Option, none, some, List, [], ◌∷◌, ◌++◌, if◌then◌else◌,
}
use realtime_game_server.Base.Text.{Text, codes, same_text, split, lacks}
use realtime_game_server.Base.Text.Split.{split_part, split_append}

abbrev is_listed : List Text → Bool
is_listed [] = false
is_listed (path ∷ _) = same_text path (codes "/health") || same_text path (codes "/ready")

-- `allowList`
unfoldable pub is_exempt : (url : Text) → Bool
is_exempt url = is_listed (split b'?' url)

-- the status, and `redis` of the body
unfoldable pub ready : (pong : Option Text) → ℕ × Bool
ready none = (503, false)
ready (some pong) = if same_text pong (codes "PONG") then (200, true) else (503, false)

-- A query does not change whether a path is left out.
is_exempt-query :
    (path query : Text) → lacks b'?' path ≡ true → is_exempt (path ++ b'?' ∷ query) ≡ is_exempt path
unfolding is_exempt
is_exempt-query path query h =
    rw (split_append b'?' path query h, split_part b'?' path h, is_exempt) refl
