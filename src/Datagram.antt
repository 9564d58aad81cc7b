-- ===== src/Datagram.antt =====
-- lib/plexus-datagram/include/plexus/datagram: delivery over a datagram transport.
pub mod UdpReorderBuffer
pub mod UdpRtoEstimator
pub mod UdpReliableArq
pub mod ReassemblerFlatMap
pub mod Fragmentation
pub mod Reassembler
pub mod SendQueue
pub mod UdpHandshakeArq
