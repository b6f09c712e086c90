-- ===== src/Game.antt =====
-- src/infrastructure/game/*.ts with the value objects and constants that it uses.
pub mod Double
pub mod Vec3
pub mod AntiCheat
pub mod Snapshot
pub mod Protocol
pub mod Session
pub mod Manager
