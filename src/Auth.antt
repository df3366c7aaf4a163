-- ===== src/Auth.antt =====
-- Who may use the local backend's HTTP routes and WebSocket, src/server/auth-guard.ts.
pub mod Guard
pub mod Access
mod Examples
