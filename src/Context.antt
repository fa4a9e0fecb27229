-- ===== src/Context.antt =====
-- internal/web/context_budget.go, codex_usage.go and auto_compact.go: the context budget.
pub mod Messages
pub mod Atoms
pub mod Window
