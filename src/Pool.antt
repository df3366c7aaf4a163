-- ===== src/Pool.antt =====
-- The pool of pi processes, src/server/process-pool.ts.
pub mod State
pub mod Operations
pub mod History
pub mod Requests
pub mod Promises
pub mod Settling
pub mod Serving
pub mod Capacity
pub mod Exclusive
pub mod Tenure
mod Examples
