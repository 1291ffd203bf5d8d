-- ===== src/Codec.antt =====
-- src/codec.rs: the TLS wire encoding. Bytes are numbers below 256, and a buffer is a list.
pub mod Cursor
pub mod Traits
pub mod Ints
pub mod Items
pub mod Examples
