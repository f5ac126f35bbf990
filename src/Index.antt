-- ===== src/Index.antt =====
-- engine/kernel/index: the documents in the key-value store.
pub mod Codec
mod SmallCodec
pub mod Encoding
mod Tests
