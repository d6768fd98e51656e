-- ===== src/Transport.antt =====
-- The transport of the proxy, src/transport.
pub mod Demux
pub mod Quic
