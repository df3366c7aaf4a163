-- ===== src/Queue.antt =====
-- The scheduler of outgoing frames, PrioritizedFrameQueue of src/server/frame-connection.ts.
pub mod Lanes
pub mod Flush
pub mod Accounting
pub mod History
mod Examples
