-- ===== src/Io.antt =====
-- lib/plexus-core/include/plexus/io: the session layer above the transports.
pub mod HandshakeFsm
pub mod PriorityBandQueue
pub mod HistoryRing
