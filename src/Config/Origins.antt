-- ===== src/Config/Origins.antt =====
-- The origins that CORS lets in.
use realtime_game_server.Base.{◌≡◌, ◌≢◌, true, [], All}
use realtime_game_server.Base.Text.{Text, trim, lacks}
use realtime_game_server.Config.{NodeEnv, production, CorsOrigins, every_origin, listed}

-- An origin is not empty, has no white space around it and no comma in it.
pub record IsOrigin (origin : Text) : Type 0 where
  pub some_text : origin ≢ []
  pub trimmed : trim origin ≡ origin
  pub no_comma : lacks b',' origin ≡ true

-- what may be answered: origins, or every origin outside production
abbrev pub AreOrigins : NodeEnv → CorsOrigins → Type 0
AreOrigins node_env every_origin = node_env ≢ production
AreOrigins node_env (listed origins) = All IsOrigin origins
