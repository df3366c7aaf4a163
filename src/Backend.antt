-- ===== src/Backend.antt =====
-- A backend's own trust store, src/server/backend-trust-store.ts: the last word on who may connect
-- to the backend, whatever the rendezvous server says.
pub mod Store
pub mod History
pub mod Safety
pub mod Once
pub mod Authorizer
mod Examples
