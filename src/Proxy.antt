-- ===== src/Proxy.antt =====
-- The proxy's own logic: configuration, counters, routing, the backend pool and the relay.
pub mod Config
pub mod Load
pub mod Router
pub mod Pool
pub mod Relay
pub mod Core
pub mod Server
