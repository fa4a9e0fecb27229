-- ===== src/Sessions.antt =====
-- internal/web/session_resolver.go: the conversation that a request goes on with.
pub mod Store
pub mod Matching
pub mod Resolve
pub mod Bind
pub mod Names
pub mod Stored
pub mod Search
pub mod Choice
pub mod Targets
pub mod Kept
pub mod Loaded
pub mod Sound
pub mod Fits
pub mod Clone
pub mod Size
pub mod Limit
pub mod Resume
pub mod Isolation
