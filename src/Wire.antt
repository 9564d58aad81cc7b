-- ===== src/Wire.antt =====
-- The wire formats: lib/plexus-wire/include/plexus/wire.
pub mod ByteOrder
pub mod Varint
pub mod LengthPrefixed
pub mod Writer
pub mod Reader
pub mod Frame
pub mod FrameReassembler
pub mod UdpDedupWindow
pub mod DataFrame
pub mod RpcFrame
pub mod UdpAck
pub mod UdpEnvelope
pub mod Handshake
pub mod Subscribe
pub mod Crc32c
pub mod TopicHash
pub mod CloseCause
pub mod Presence
