-- ===== src/Api/Guard.antt =====
-- src/api/middleware/auth.ts and src/api/middleware/admin.ts: who may use a route. A text of which the
-- code reads the bytes is a list of numbers; `timingSafeEqual` is a parameter.
use realtime_game_server.Base.{
  ℕ, Bool, false, Option, none, some, List, [], ◌∷◌, Key, ◌==◌, if◌then◌else◌, length, ⊤,
}
use realtime_game_server.Base.Action.{Result, ok, err, unauthorized, forbidden}
use realtime_game_server.Auth.Tokens.{Crypto, AccessTokenPayload, verify_access_token}

-- the header `authorization`: `Bearer ` and a token, or something else
pub data Authorization : Type 0 where
  bearer : Key → Authorization
  other : Authorization

-- the header `x-admin-key`: one text or several
pub data AdminKey : Type 0 where
  one : List ℕ → AdminKey
  several : List (List ℕ) → AdminKey

pub record Headers : Type 0 where
  pub authorization : Option Authorization
  pub admin_key : Option AdminKey

-- `request.auth` after the hook
unfoldable pub authenticate : Crypto → Headers → Result AccessTokenPayload
authenticate c headers = elim headers.authorization [
  | none ↦ err (unauthorized "Missing bearer token")
  | some header ↦ elim header [
    | other ↦ err (unauthorized "Missing bearer token")
    | bearer token ↦ elim (verify_access_token c token) [
      | none ↦ err (unauthorized "Invalid or expired access token")
      | some payload ↦ ok payload
    ]
  ]
]

module _ (timing_safe_equal : List ℕ → List ℕ → Bool) where
  unfoldable pub safe_equal_string : List ℕ → List ℕ → Bool
  safe_equal_string a b = if length a == length b then timing_safe_equal a b else false

  -- the comparison with the key that is configured
  unfoldable pub compare_admin_key : List ℕ → Option AdminKey → Result ⊤
  compare_admin_key key (some (one (b ∷ bytes))) =
      if safe_equal_string (b ∷ bytes) key then ok tt else err (forbidden "Invalid admin key")
  compare_admin_key key (some (one [])) = err (unauthorized "Missing x-admin-key header")
  compare_admin_key key (some (several keys)) = err (unauthorized "Missing x-admin-key header")
  compare_admin_key key none = err (unauthorized "Missing x-admin-key header")

  abbrev admin_disabled : Result ⊤
  admin_disabled =
      err (
        forbidden "Admin mutations are disabled. Set ADMIN_API_KEY to enable privileged endpoints.")

  unfoldable pub assert_admin_key : Option (List ℕ) → Option AdminKey → Result ⊤
  assert_admin_key none provided = admin_disabled
  assert_admin_key (some []) provided = admin_disabled
  assert_admin_key (some (k ∷ key)) provided = compare_admin_key (k ∷ key) provided
