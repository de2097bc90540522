-- ===== src/Transport.antt =====
-- The transports: src/transport/*.rs.
pub mod Codec
pub mod Admission
pub mod ProxyProtocol
pub mod Hub
pub mod Identity
pub mod Seen
pub mod Connections
