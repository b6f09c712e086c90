-- ===== src/Tests.antt =====
-- The theorems at concrete inputs.
mod Fixed
mod Game
mod Auth
mod Lobby
mod Shop
mod Gateway
mod Presence
mod Config
mod Players
mod Api
