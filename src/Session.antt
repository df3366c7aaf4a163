-- ===== src/Session.antt =====
-- The owner of one session's runtime state, src/server/session-actor.ts.
pub mod Phase
pub mod Actor
pub mod Events
pub mod Detach
pub mod Ownership
pub mod Mailbox
pub mod Safety
mod Examples
