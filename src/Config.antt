-- ===== src/Config.antt =====
-- src/shared/config/env.ts: what the schema refuses beyond the shape of each variable, and the origins
-- of CORS. zod's parsing of the variables one by one is a parameter, as is `toLowerCase`.
pub mod Secrets
pub mod Origins
pub mod RoundTrip
use realtime_game_server.Base.{
  ℕ, Bool, true, false, not, ◌&&◌, ◌||◌, Option, none, some, List, [], ◌∷◌, ◌++◌, if◌then◌else◌,
  any, map, filter,
}
use realtime_game_server.Base.Text.{Text, codes, is_empty, same_text, includes, trim, split}

pub data NodeEnv : Type 0 where
  development test production : NodeEnv

abbrev pub is_production : NodeEnv → Bool
is_production production = true
is_production development = false
is_production test = false

-- the variables that are checked or transformed further
pub record Env : Type 0 where
  pub node_env : NodeEnv
  pub jwt_access_secret : Text
  pub jwt_refresh_secret : Text
  pub admin_api_key : Option Text
  pub cors_origins : Text

pub data Issue : Type 0 where
  weak_access_secret weak_refresh_secret weak_admin_key : Issue

abbrev pub weak_secret_markers : List Text
weak_secret_markers =
    codes "change-me"
    ∷ codes "dev-access"
    ∷ codes "dev-refresh"
    ∷ codes "production-access"
    ∷ codes "production-refresh"
    ∷ []

module _ (to_lower_case : Text → Text) where
  -- whether `rejectWeakSecret` throws
  unfoldable pub reject_weak_secret : Text → NodeEnv → Bool
  reject_weak_secret secret node_env =
      is_production node_env
      && any (λ marker. includes marker (to_lower_case secret)) weak_secret_markers

  -- the first throw ends the `try`
  unfoldable pub secret_issues : Env → List Issue
  secret_issues value =
      if reject_weak_secret value.jwt_access_secret value.node_env
      then weak_access_secret ∷ []
      else if reject_weak_secret value.jwt_refresh_secret value.node_env
      then weak_refresh_secret ∷ []
      else []

  -- a key that is the empty text counts as none
  unfoldable pub admin_issues : NodeEnv → Option Text → List Issue
  admin_issues node_env none = []
  admin_issues node_env (some key) =
      if is_production node_env
        && not (is_empty key)
        && (includes (codes "change-me") (to_lower_case key)
            || includes (codes "dev-admin") (to_lower_case key))
      then weak_admin_key ∷ []
      else []

  -- `superRefine`
  unfoldable pub refine : Env → List Issue
  refine value = secret_issues value ++ admin_issues value.node_env value.admin_api_key

  abbrev pub accepted : Env → List Issue → Option Env
  accepted value [] = some value
  accepted value (_ ∷ _) = none

  -- `none` stands for the throw
  unfoldable pub load_env : {Process : Type 0} → (Process → Option Env) → Process → Option Env
  load_env parse process = elim (parse process) [
    | none ↦ none
    | some value ↦ accepted value (refine value)
  ]

-- `TRUST_PROXY`: the two literals, or the truth value of the text
unfoldable pub trust_proxy : Option Text → Bool
trust_proxy none = false
trust_proxy (some raw) =
    if same_text raw (codes "true")
    then true
    else if same_text raw (codes "false")
    then false
    else not (is_empty raw)

pub data CorsOrigins : Type 0 where
  every_origin : CorsOrigins
  listed : List Text → CorsOrigins

unfoldable pub parse_cors_origins : NodeEnv → Text → CorsOrigins
parse_cors_origins node_env raw =
    if same_text (trim raw) (codes "*")
    then (if is_production node_env then listed [] else every_origin)
    else listed (filter (λ origin. not (is_empty origin)) (map trim (split b',' (trim raw))))
