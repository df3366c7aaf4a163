-- ===== src/Trust.antt =====
-- The rendezvous server's trust store, src/rendezvous/trust-store.ts: which device may reach which
-- backend of which account. A public method takes the store, the clock's reading and the fresh
-- random values that it draws, and returns its result or error beside the new store.
pub mod Types
pub mod Challenges
pub mod Tickets
pub mod Pairing
pub mod Devices
pub mod Consistency
pub mod History
pub mod Keys
pub mod Grants
pub mod Writes
pub mod Replay
pub mod Authorization
pub mod Changes
mod Examples
