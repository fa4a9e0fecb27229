-- ===== src/Health.antt =====
-- internal/web/account_health.go.
pub mod Errors
pub mod Circuit
pub mod Cooldown
pub mod Accounts
