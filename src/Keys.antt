-- ===== src/Keys.antt =====
-- internal/web/keys.go: the API keys and the requests that they may make.
pub mod Store
pub mod Update
pub mod Lookup
pub mod Access
pub mod Rollback
pub mod Minutes
pub mod Atomic
pub mod Lifecycle
