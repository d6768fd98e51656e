-- ===== src/H3.antt =====
-- The HTTP/3 codec, src/codec/h3_codec.cpp.
pub mod Varint
pub mod Heads
pub mod Exchange
pub mod Literal
