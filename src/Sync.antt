-- ===== src/Sync.antt =====
-- The hash-verified text diffs of a session's document, src/shared/jsonl-sync.ts.
pub mod Patch
pub mod Op
pub mod RoundTrip
pub mod Batch
mod Examples
