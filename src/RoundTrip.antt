-- ===== src/RoundTrip.antt =====
-- writer.go and reader.go together.
pub mod Varint
pub mod Numbers
pub mod Bytes
pub mod Blocks
pub mod Callback
pub mod Skipping
pub mod Floats
