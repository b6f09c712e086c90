-- ===== src/Tests/Config.antt =====
-- The theorems on texts: durations, the environment, origins and room codes.
use Prim.Native.Nat.{◌%◌}
use realtime_game_server.Base.{
  ℕ, ◌+◌, ◌*◌, ◌<◌, ◌≡◌, ◌≢◌, ◌↔◌, refl, true, Option, some, [], ◌∷◌, All, arith, length, all, map,
}
use realtime_game_server.Base.Text.{Text, codes, trim, trim_start, trim_end, keep_end, is_space}
use realtime_game_server.Auth.Tokens.Duration.{parse_duration_to_ms}
use realtime_game_server.Auth.Tokens.Duration.Decimal.{IsDuration, parse_duration_to_ms-IsDuration}
use realtime_game_server.Config.{Env, production, load_env, listed, parse_cors_origins}
use realtime_game_server.Config.Secrets.{IsSafe, load_env-IsSafe}
use realtime_game_server.Config.Origins.{IsOrigin}
use realtime_game_server.Config.RoundTrip.{join, parse_cors_origins-join}
use realtime_game_server.Tests.Fixed.{thousandths}
use realtime_game_server.Lobby.Code.{
  alphabet, generate_room_code, is_code_unit, index_of, draws, generate_room_code-draws,
}

parse_duration_to_ms-IsDuration_example :
    (parse_duration_to_ms (codes "15m") ≡ some (thousandths.decimal 900_000 0))
    ↔ IsDuration (codes "15m") (thousandths.decimal 900_000 0)
parse_duration_to_ms-IsDuration_example =
    parse_duration_to_ms-IsDuration (codes "15m") (thousandths.decimal 900_000 0)

abbrev deployed : Env
deployed = record {
  node_env = production;
  jwt_access_secret = codes "5f1c0a97d2e84b36";
  jwt_refresh_secret = codes "a80be3157cc94d02";
  admin_api_key = some (codes "7c91e2bb04d8a6f3");
  cors_origins = codes "*";
}

load_env-IsSafe_example :
    (load_env (λ t. t) (λ (e : Env). some e) deployed ≡ some deployed)
    ↔ ((◌≡◌ {A = Option Env} (some deployed) (some deployed)) × IsSafe (λ t. t) deployed)
load_env-IsSafe_example = load_env-IsSafe (λ t. t) (λ (e : Env). some e) deployed deployed

abbrev first : Text
first = codes "https://a.io"

abbrev second : Text
second = codes "http://b"

are_origins : All IsOrigin (first ∷ second ∷ [])
unfolding trim trim_start trim_end keep_end is_space
are_origins = (
  record { some_text = λ e. absurd (ground (arith, e)); trimmed = refl; no_comma = refl },
  (record { some_text = λ e. absurd (ground (arith, e)); trimmed = refl; no_comma = refl }, tt),
)

no_star : join first (second ∷ []) ≢ codes "*"
no_star e = absurd (ground (arith, e))

parse_cors_origins-join_example :
    parse_cors_origins production (join first (second ∷ [])) ≡ listed (first ∷ second ∷ [])
parse_cors_origins-join_example =
    parse_cors_origins-join production first (second ∷ []) are_origins no_star

abbrev random_int : ℕ → ℕ → ℕ
random_int bound draw = (draw * 7 + 3) % bound

below : (draw : ℕ) → random_int 32 draw < 32
below draw = omega arith

generate_room_code-draws_example :
    (length (generate_room_code random_int 6) ≡ 6)
    × (all is_code_unit (generate_room_code random_int 6) ≡ true)
    × (map (index_of alphabet) (generate_room_code random_int 6) ≡ draws random_int 6 0)
generate_room_code-draws_example = generate_room_code-draws random_int below 6
