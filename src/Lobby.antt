-- ===== src/Lobby.antt =====
-- src/application/services/lobby-service.ts over src/infrastructure/database/prisma-room-repository.ts.
pub mod Code
pub mod Rooms
pub mod Service
pub mod Members
pub mod Seats
pub mod Invariant
pub mod Keeps
pub mod Start
pub mod Create
pub mod Reach
pub mod Overlap
pub mod Sessions
