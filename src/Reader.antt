-- ===== src/Reader.antt =====
-- reader.go and reader_skip.go.
pub mod State
pub mod Varint
pub mod Values
pub mod Skip
pub mod Scan
pub mod Stream
pub mod Slices
pub mod Rounds
pub mod Chunks
pub mod Copy
pub mod Settings
pub mod Strings
pub mod Passing
