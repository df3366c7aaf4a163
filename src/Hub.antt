-- ===== src/Hub.antt =====
-- The rendezvous hub, src/rendezvous/rendezvous-hub.ts: backends register, browsers present tickets,
-- and what they signal to each other is relayed over a route, as long as it is authorised.
pub mod Types
pub mod Routes
pub mod Backends
pub mod Browsers
pub mod History
pub mod Sound
pub mod Dropping
pub mod TrustSteps
pub mod Keeping
pub mod BackendSteps
pub mod RegisterSteps
pub mod Leaving
pub mod BrowserSteps
pub mod Requests
pub mod Revocation
pub mod Access
mod Examples
