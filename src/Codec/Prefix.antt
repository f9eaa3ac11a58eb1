-- ===== src/Codec/Prefix.antt =====
-- No message is the beginning of another: a reader that succeeds does the same with more bytes behind.
pub mod Extending
pub mod Primitives
pub mod Fields
pub mod Messages
