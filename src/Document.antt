-- ===== src/Document.antt =====
-- The document of a session that clients are kept in step with, src/server/session-jsonl.ts.
pub mod State
pub mod Events
pub mod Syncing
mod Examples
