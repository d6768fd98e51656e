-- ===== src/Http.antt =====
-- The protocol-independent HTTP layer: header maps, messages and body sources.
pub mod Headers
pub mod Message
pub mod Stream
pub mod Body
pub mod Pump
