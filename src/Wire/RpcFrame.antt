-- ===== src/Wire/RpcFrame.antt =====
-- lib/plexus-wire/include/plexus/wire/rpc_frame.h and rpc_status.h: the frames of a call and of its
-- answer.
pub mod RoundTrip
use plexus.Common.{ℕ, ◌+◌, Bool, true, false, ◌==◌, if◌then◌else◌}
use plexus.Common.{Option, none, some, ◌>>=◌, List, [], ◌∷◌, ◌++◌, length}
use plexus.Wire.ByteOrder.{Endian}
use plexus.Wire.Writer.{Writer, writer, resize}
use plexus.Wire.Writer
use plexus.Wire.DataFrame.{
  BidirectionalHeader, BidirectionalDecodeResult, bidirectional_header_size,
}
use plexus.Wire.DataFrame.{
  write_bidirectional, encode_bidirectional, encode_bidirectional_into, decode_bidirectional,
}

pub data RpcStatus : Type 0 where
  success error timeout cancelled no_handler deserialize_failed : RpcStatus
  topic_not_found peer_disconnected rpc_response_orphan : RpcStatus

-- `static_cast<std::uint8_t>(status)`.
unfoldable pub rpc_status_byte : RpcStatus → ℕ
rpc_status_byte success = 0
rpc_status_byte error = 1
rpc_status_byte timeout = 2
rpc_status_byte cancelled = 3
rpc_status_byte no_handler = 4
rpc_status_byte deserialize_failed = 5
rpc_status_byte topic_not_found = 8
rpc_status_byte peer_disconnected = 18
rpc_status_byte rpc_response_orphan = 20

-- `static_cast<rpc_status>(byte)` where `is_defined_rpc_status(byte)`, and `none` where it is not.
unfoldable pub defined_rpc_status : ℕ → Option RpcStatus
defined_rpc_status byte =
    if byte == 0
    then some success
    else if byte == 1
    then some error
    else if byte == 2
    then some timeout
    else if byte == 3
    then some cancelled
    else if byte == 4
    then some no_handler
    else if byte == 5
    then some deserialize_failed
    else if byte == 8
    then some topic_not_found
    else if byte == 18
    then some peer_disconnected
    else if byte == 20
    then some rpc_response_orphan
    else none

pub record RpcRequestDecodeResult : Type 0 where
  pub header : BidirectionalHeader
  pub param_data : List ℕ

pub record RpcResponseDecodeResult : Type 0 where
  pub header : BidirectionalHeader
  pub status : RpcStatus
  pub return_data : List ℕ

unfoldable pub encode_rpc_request : Endian → BidirectionalHeader → List ℕ → Option (List ℕ)
encode_rpc_request host hdr param_data = encode_bidirectional host hdr param_data

unfoldable pub encode_rpc_request_into :
    Endian → List ℕ → BidirectionalHeader → List ℕ → Option (List ℕ)
encode_rpc_request_into host out hdr param_data = encode_bidirectional_into host out hdr param_data

unfoldable pub decode_rpc_request : Endian → List ℕ → Option RpcRequestDecodeResult
decode_rpc_request host payload = do
  decoded ← decode_bidirectional host payload
  some (record { header = decoded.header; param_data = decoded.payload })

unfoldable pub encode_rpc_response :
    Endian → BidirectionalHeader → RpcStatus → List ℕ → Option (List ℕ)
encode_rpc_response host hdr status return_data =
    encode_bidirectional host hdr (rpc_status_byte status ∷ return_data)

-- The status and what is returned, out of the data behind the header.
unfoldable pub split_response : BidirectionalHeader → List ℕ → Option RpcResponseDecodeResult
split_response hdr [] = none
split_response hdr (status_byte ∷ return_data) = do
  status ← defined_rpc_status status_byte
  some (record { header = hdr; status = status; return_data = return_data })

unfoldable pub decode_rpc_response : Endian → List ℕ → Option RpcResponseDecodeResult
decode_rpc_response host payload = do
  decoded ← decode_bidirectional host payload
  split_response decoded.header decoded.payload

unfoldable pub encode_rpc_response_into :
    Endian → List ℕ → BidirectionalHeader → RpcStatus → List ℕ → Option (List ℕ)
encode_rpc_response_into host out hdr status return_data = do
  w ←
      write_bidirectional host hdr
        (writer (resize (bidirectional_header_size + 1 + length return_data) out))
  w ← Writer.u8 (rpc_status_byte status) w
  w ← Writer.bytes return_data w
  some w.region
