-- ===== src/Tests.antt =====
-- Runs of the models at concrete inputs.
mod Accounts
mod Circuits
mod Proxies
mod Calls
mod Resumed
mod Issued
mod Signed
mod Counted
mod Queued
mod Windows
mod Pooled
mod Loops
mod Logins
