-- ===== src/Api.antt =====
-- The HTTP interface: src/api over the services, with the gateway's state beside the tables. The
-- parsing of a body (zod) is a parameter: a request holds what it answers, `none` where it throws.
-- The rate limits of the routes are Fastify's.
pub mod Health
pub mod Errors
pub mod Guard
pub mod State
pub mod Routes
pub mod Access
pub mod Answers
pub mod Account
pub mod Invariant
pub mod Register
pub mod Keeps
pub mod Reach
