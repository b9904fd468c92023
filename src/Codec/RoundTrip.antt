-- ===== src/Codec/RoundTrip.antt =====
-- `decode_packet` of src/codec.rs reads back what `encode_packet` writes.
pub mod Valid
pub mod Pieces
pub mod Connect
pub mod Publish
pub mod Acks
pub mod Reasons
pub mod Disconnect
pub mod Frame
pub mod Subscribe
