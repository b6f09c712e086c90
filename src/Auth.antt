-- ===== src/Auth.antt =====
-- src/application/services/auth-service.ts with src/infrastructure/auth/token-service.ts and the
-- repositories of users, players and refresh tokens.
pub mod Store
pub mod Tokens
pub mod Service
pub mod Revocation
pub mod Rotation
pub mod Account
pub mod Race
