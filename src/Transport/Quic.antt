-- ===== src/Transport/Quic.antt =====
-- src/transport/quic_transport.h and quic_transport.cpp: streams, sessions and engines on lsquic.
pub mod Stream
pub mod Session
pub mod HeaderSet
pub mod Engine
pub mod Client
