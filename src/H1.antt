-- ===== src/H1.antt =====
-- The HTTP/1.1 codec, src/codec/h1_codec.cpp.
pub mod Result
pub mod Fields
pub mod KeepAlive
pub mod Request
pub mod Response
pub mod Reading
