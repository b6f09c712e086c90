-- ===== src/Gateway.antt =====
-- src/infrastructure/websocket/gateway.ts: the connections and what they may do. A handler is one
-- step: what another one does while it waits for Redis or the database is not modelled. `now` is
-- `Date.now()` in the call, `uuid` what `randomUUID` returns; a frame comes with its length and what
-- `JSON.parse` and the schema make of it. An effect is what the handler sends, which is dropped where
-- the socket is no longer open.
pub mod Request
pub mod Shutdown
pub mod State
pub mod Tables
pub mod Connect
pub mod Handlers
pub mod Connections
pub mod Sessions
pub mod Join
pub mod Message
pub mod Rejected
pub mod Reach
pub mod Early
