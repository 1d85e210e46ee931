-- ===== src/Gateway.antt =====
-- The gateway (apps/gateway): how packets are written and read.
pub mod Packet
pub mod Bytes
pub mod PackedGuids
pub mod Fields
pub mod RoundTrip
mod Examples
