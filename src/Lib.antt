-- ===== src/Lib.antt =====
-- Verification of the real-time game server: the TypeScript code under src/, shallowly embedded.
--
-- The program. Players register and log in (application/services/auth-service.ts), meet in rooms
-- (lobby-service.ts), own coins and items (economy-service.ts, inventory-service.ts), and play: the
-- gateway (infrastructure/websocket/gateway.ts) hands their inputs to the session of their room
-- (infrastructure/game/game-session.ts), which checks them (anti-cheat.ts) and sends snapshots and
-- deltas at every tick (snapshot.ts).
--
-- What models what.
--   Base          numbers, lists, JavaScript's Map as an association list (Base/Dict), code that may
--                 throw as a function on its store (Base/Action, with the errors of
--                 src/domain/errors/app-error.ts), and signed integers (Base/Int)
--   Game          src/infrastructure/game: Vec3 (src/domain/value-objects/vec3.ts), AntiCheat
--                 (anti-cheat.ts), Snapshot (snapshot.ts), Protocol
--                 (src/infrastructure/websocket/protocol.ts), Session (game-session.ts),
--                 Manager (game-session-manager.ts)
--   Lobby         Rooms (src/infrastructure/database/prisma-room-repository.ts), Service
--                 (src/application/services/lobby-service.ts) and Code
--                 (src/shared/utils/room-code.ts), Sessions
--                 (src/infrastructure/database/prisma-session-repository.ts)
--   Economy       src/application/services/economy-service.ts
--   Inventory     src/application/services/inventory-service.ts and
--                 src/infrastructure/database/prisma-inventory-repository.ts
--   Auth          Store (the repositories of users, players and refresh tokens), Tokens
--                 (src/infrastructure/auth/token-service.ts), Service
--                 (src/application/services/auth-service.ts), Account (a registration and a login),
--                 Race (overlapping refreshes)
--   Config        src/shared/config/env.ts: Secrets (what production refuses), Origins and RoundTrip
--                 (the origins of CORS); texts are lists of code units (Base/Text)
--   Presence      `RedisPresenceService` and `RedisSessionCache` of
--                 src/infrastructure/redis/redis-client.ts: Commands (Redis, a parameter), Effects and
--                 Handlers and Backs (the gateway's calls of it), Reach (any sequence of the
--                 gateway's events), Reconnect, Cache
--   RateLimit     `RedisRateLimiter` of src/infrastructure/redis/redis-client.ts
--   Gateway       src/infrastructure/websocket/gateway.ts: State, Connect and Handlers (the
--                 handlers), Connections, Join, Message, Sessions (what they do), Reach (any
--                 sequence of them), Rejected (what a frame throws), Early (frames that come before the
--                 connection is set up), Request (the address and the token), Shutdown (`close`,
--                 with src/server.ts)
--   Player        src/application/services/player-service.ts and
--                 src/infrastructure/database/prisma-player-repository.ts: Experience (levels and the
--                 leaderboard's rows), Overlap (two additions at once)
--   Leaderboard   src/application/services/leaderboard-service.ts and
--                 src/infrastructure/database/prisma-leaderboard-repository.ts: Top (the best players)
--   Api           src/api: Errors (the error handler), Guard (the middleware), State (the tables, the
--                 gateway and the sessions together), Routes (the routes); Access (who is let
--                 through), Answers and Account (a new account through the routes),
--                 Invariant, Register, Keeps and Reach (any sequence of requests and of the
--                 gateway's events), Health (`/ready` of src/app.ts)
--   Tests         the theorems at concrete inputs
-- A method `someMethod` is the definition `some_method`; its other names are those of the source.
--
-- How it is modelled. Text that the code only compares, such as ids, is a number (`Key`). A number
-- that may be fractional is of a type `W` with the operations of `Game/Double`, a parameter, since
-- the arithmetic is not the repository's; the tests fill it with thousandths. A method of a service
-- is an `Action`: from a database to a result or an error, and the database after it. One call is
-- one step, but for the refresh of a token, the gain of experience and the join of a room, which
-- are also cut at an `await` (Auth/Race, Player/Overlap, Lobby/Overlap); what other overlapping
-- calls may do between two statements is not modelled. The tables are those of one database:
-- Api/State puts them together, where a player's row stands in the parts of it that the services
-- read. Times, random ids and codes, and what JWT, bcrypt and SHA-256 answer are arguments. A list
-- ends every loop, so there is no fuel; the loop that draws a room's code counts the five attempts
-- of the source.
--
-- What is not modelled: the parsing of requests and of the single variables of the configuration by
-- zod, of which the results are arguments; the rate limits of the HTTP routes, which are a
-- plugin's; the start of the WebSocket server and of the process, and what the process closes
-- beside the gateway and its sessions; the plugins of the Fastify application; `updateStatus` of
-- the session repository and the methods of the player repository that nothing calls; and the
-- measuring scripts under scripts/.
pub mod Base
pub mod Api
pub mod Auth
pub mod Config
pub mod Economy
pub mod Game
pub mod Gateway
pub mod Inventory
pub mod Leaderboard
pub mod Lobby
pub mod Player
pub mod Presence
pub mod RateLimit
pub mod Tests
