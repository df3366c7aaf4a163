-- ===== src/Registry.antt =====
-- The registry of sessions, src/server/session-registry.ts, with the actors that it owns.
pub mod State
pub mod Index
pub mod Handling
pub mod Ownership
mod Examples
