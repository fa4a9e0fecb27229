-- ===== src/Tokens.antt =====
-- internal/auth/cache.go: the accounts and their tokens.
pub mod Sealing
pub mod Store
pub mod Refresh
pub mod Secrets
pub mod Rotation
pub mod Clients
