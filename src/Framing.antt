-- ===== src/Framing.antt =====
-- Carrier framing, src/shared/data-channel-framing.ts: long frames travel as chunks.
pub mod Encoder
pub mod Decoder
pub mod Bounds
pub mod Pieces
pub mod RoundTrip
mod Examples
