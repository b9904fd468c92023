-- ===== src/Codec.antt =====
-- src/codec.rs
pub mod Outcome
pub mod Utf8
pub mod Read
pub mod Varint
pub mod Write
pub mod Wire
pub mod Packet
pub mod Properties
pub mod Decode
pub mod Encode
pub mod RoundTrip
pub mod Crash
mod Tests
