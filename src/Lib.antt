-- ===== src/Lib.antt =====
-- Plexus: what its wire codecs, its datagram windows, its bands and its handshake do.
--
-- The program is a header-only C++ messaging library. lib/plexus-wire encodes and decodes what is
-- sent; lib/plexus-datagram orders and filters what a datagram transport receives;
-- lib/plexus-core/include/plexus/io runs the sessions on top. A stream transport hands the bytes
-- that it reads to the frame reassembler, which hands complete frames to a session; a datagram
-- transport drops repeated sequence numbers with the dedup window and releases reliable datagrams
-- in order with the reorder buffer; what is sent reliably is numbered, kept and sent again by the
-- ARQ, which gives what arrives to that buffer and acknowledges it; a session drives the handshake
-- state machine with the requests and responses that arrive, and performs the action that it
-- answers.
--
-- Files:
--   Common: shared names; Common/Tests (Boolean tests, the bind of Option), Common/Lists (lists
--     indexed by native numbers), Common/Members, Common/Bits and Common/Xor (binary digits),
--     Common/Order.
--   Wire/ByteOrder: wire/byte_order.h; byteswap, read_uN, write_uN. The byte order of the host is
--     a parameter, so that two hosts of either order are compared. Swap: its lemmas.
--   Wire/Varint: wire/varint.h; Encode and Decode: its lemmas against LEB128.
--   Wire/LengthPrefixed: wire/length_prefixed.h; Bounds: its lemmas.
--   Wire/Writer, Wire/Reader: wire/writer.h, wire/reader.h. A record and state passing;
--     Writer/Fill shows what a region holds after a chain of writes, Reader/Take what a chain of
--     reads yields.
--   Wire/Frame, Wire/Frame/Codec: wire/frame.h, wire/frame_codec.h; RoundTrip: its lemmas.
--   Wire/DataFrame, Wire/RpcFrame: wire/data_frame.h, wire/detail/data_frame_codec.h,
--     wire/rpc_frame.h, wire/rpc_status.h; Unidirectional and RoundTrip: what is written and read
--     back.
--   Wire/UdpEnvelope, Wire/UdpAck: wire/udp_envelope.h, wire/detail/udp_envelope_codec.h,
--     wire/udp_ack.h; RoundTrip as above, Holes is about the bitmap.
--   Wire/Subscribe: wire/subscribe.h, wire/detail/subscribe_codec.h; Layout and RoundTrip for the
--     request, Responses for the rest. Wire/Presence: wire/heartbeat.h, wire/fetch_latched.h.
--   Wire/Crc32c, Wire/TopicHash, Wire/CloseCause: wire/crc32c.h, wire/topic_hash.h,
--     wire/close_cause.h; Crc32c/Bitwise: the checksum against one without a table.
--   Wire/Handshake: wire/handshake.h, wire/detail/handshake_codec.h; RoundTrip as above.
--   Wire/FrameReassembler: wire/frame_reassembler.h; feed is a loop of turns, one for each round
--     of the source's loop. Stream is the abstract parse of a byte stream, Payload and Turns
--     relate the loop to it and Refine a feed, Chunks cuts it in two, Delivery is about what a
--     caller gets.
--   Wire/UdpDedupWindow: wire/udp_dedup_window.h; Exact compares it with a receiver that keeps
--     whole sequence numbers, Once reads the consequence off.
--   Datagram/UdpReorderBuffer: lib/plexus-datagram/include/plexus/datagram/detail/
--     udp_reorder_buffer.h; Ring is the arithmetic of its slots, InOrder the invariant and the
--     drain, Arrivals and Complete one feed, FirstGap a run of feeds.
--   Datagram/UdpRtoEstimator: udp_rto_estimator.h beside it; Bounds: its lemmas.
--   Datagram/UdpReliableArq: udp_reliable_arq.h beside it; one function for each operation, which
--     returns the effects of its callbacks. Window relates the slots to the segments by their
--     whole numbers, Slide and Steps are about acknowledgements, Events and its children and
--     Outstanding about the other operations, Runs about runs of events, Retries about a segment
--     that is not acknowledged, SendAck about the answer to one. Link is a step relation of a
--     sender and a receiver over a network: Invariant what holds of it, Sender and Receiver each
--     side's steps, InOrder the results.
--   Datagram/Fragmentation: lib/plexus-core/include/plexus/io/fragmentation.h; Pieces: its lemmas.
--   Datagram/ReassemblerFlatMap: reassembler_flat_map.h beside the ARQ; Slots: its lemmas.
--   Datagram/Reassembler: reassembler.h beside it; one function for each operation, which returns
--     its outcome and the effects of its sinks and timers. Entries is the table with one message
--     open, Parts what an entry holds of its message, Stored the feeds of an open message,
--     Complete those of a whole message; Charges, Bounds and Steps are about what is held, Runs
--     about runs of events.
--   Datagram/SendQueue: send_queue.h beside it, with destinations of any type; Front and Fifo: its
--     order.
--   Datagram/UdpHandshakeArq: udp_handshake_arq.h beside it; Ladder: its runs.
--   Io/HandshakeFsm: lib/plexus-core/include/plexus/io/handshake_protocol.h and handshake_fsm.h;
--     one function for each handler, answers for a sequence of calls. Once, Admission,
--     Arbitration: what it guarantees.
--   Io/PriorityBandQueue: lib/plexus-core/include/plexus/io/detail/priority_band_queue.h; a frame
--     is of any type. Fifo compares a band with a bounded queue, Drain the bands with a list of
--     queues.
--   Io/HistoryRing: history_ring.h beside it; Window compares a ring with all that was pushed.
--   Examples: the theorems at concrete inputs.
-- (wire/ is lib/plexus-wire/include/plexus/wire/.)
--
-- Bytes and words are native numbers with their bounds as hypotheses; wrap-around is written out.
-- The loops over a number recurse on accessibility, the varint reader on its ten rounds. Two loops
-- have fuel: feed has two turns more than there are bytes in its buffer, and a turn that goes
-- round consumes a header or a started payload; drain_contiguous has one turn more than there are
-- slots, and each turn clears one. Where the fuel ran out, or the source would write past a buffer
-- or its slots, the model has no result. The slide of the ARQ's window recurses on the number in
-- flight, and with none in flight the source's condition is false. A timer is the wait that is
-- pending at its slot or entry: it is replaced when it is armed again, and cleared when it is
-- cancelled or ends. A handler that is queued when its wait is cancelled or replaced runs all the
-- same: for the ARQ that is the event late, which the theorems on its runs let run where it finds
-- the sender torn down or its slot free, and exclude by a named hypothesis, IsPrompt, where a
-- later segment has taken the slot; for the reassembler and the handshake ARQ it is not in the
-- model. The sums and differences of the reassembler's byte counts wrap at 2^64;
-- sizeof(std::vector<std::byte>) is its parameter. The network of Link lets a frame or an
-- acknowledgement that was sent arrive, as it was sent, any number of times, unless it is half of
-- the sequence space too old: each is kept with the number that it stood for when it was sent.
--
-- Not modelled: the announcement frame, the other queues and the egress scheduler, QoS matching,
-- and the sessions and forwarders around them; shared memory and its atomics; discovery,
-- recording, the public wrappers and the backends, which are input, output and glue; the clock.
-- The attach policy is a parameter of the handshake, an injected function. The sink of the reorder
-- buffer is the list of what it is called with.
pub mod Common
pub mod Wire
pub mod Datagram
pub mod Io
pub mod Examples
