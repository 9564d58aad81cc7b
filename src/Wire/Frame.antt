-- ===== src/Wire/Frame.antt =====
-- lib/plexus-wire/include/plexus/wire/frame.h and frame_codec.h: the 28-byte frame header.
pub mod Codec
pub mod RoundTrip
use plexus.Common.{ℕ, ◌*◌, ◌≤◌, ◌<◌, ◌^◌}

abbrev pub header_size : ℕ
header_size = 28

abbrev pub k_max_reassembler_payload_bytes : ℕ
k_max_reassembler_payload_bytes = 16 * 1024 * 1024

abbrev pub magic_byte_0 : ℕ
magic_byte_0 = 0x56

abbrev pub magic_byte_1 : ℕ
magic_byte_1 = 0x50

-- `msg_type` and `endpoint_source_type` are enumerations over `uint8_t`, and a decoder casts the
-- byte that it reads, named or not: they are numbers below 256.
abbrev pub unidirectional : ℕ
unidirectional = 0x01

abbrev pub rpc_request : ℕ
rpc_request = 0x09

pub record FrameHeader : Type 0 where
  pub type : ℕ
  pub flags : ℕ
  pub session_id : ℕ
  pub timestamp_ns : ℕ
  pub payload_len : ℕ

-- The fields fit their types.
pub record IsFrameHeader (h : FrameHeader) : Type 0 where
  pub type_fits : h.type < 2 ^ 8
  pub flags_fits : h.flags < 2 ^ 8
  pub session_id_fits : h.session_id < 2 ^ 64
  pub timestamp_ns_fits : h.timestamp_ns < 2 ^ 64
  pub payload_len_fits : h.payload_len < 2 ^ 64
