-- ===== src/Wire/RpcFrame/RoundTrip.antt =====
-- The frames of calls: what is written, read and refused.
use plexus.Common.{ℕ, ◌+◌, ◌≡◌, refl, sym, ap, ◌∙◌, arith}
use plexus.Common.{some, List, [], ◌∷◌, ◌++◌, append-nil, length, length-append}
use plexus.Wire.ByteOrder.{Endian}
use plexus.Wire.Writer.{writer, resize}
use plexus.Wire.Writer.Fill.{fill, fill_lem, flatten, join, flatten-join, length-resize}
use plexus.Wire.DataFrame.{BidirectionalHeader, bidirectional_header_size}
use plexus.Wire.DataFrame.{encode_bidirectional}
use plexus.Wire.DataFrame.RoundTrip.{
  write_bidirectional-fields, encode_bidirectional_into-fields, decode_bidirectional-fields,
}
use plexus.Wire.DataFrame.Unidirectional.{
  IsBidirectionalHeader, bidirectional_fields, length-bidirectional_fields,
}
use plexus.Wire.RpcFrame.{RpcStatus, rpc_status_byte, defined_rpc_status}
use plexus.Wire.RpcFrame.{
  encode_rpc_response, encode_rpc_response_into, decode_rpc_response, split_response,
}

defined_rpc_status-rpc_status_byte :
    (s : RpcStatus) → defined_rpc_status (rpc_status_byte s) ≡ some s
unfolding defined_rpc_status rpc_status_byte
defined_rpc_status-rpc_status_byte RpcStatus.success = refl
defined_rpc_status-rpc_status_byte RpcStatus.error = refl
defined_rpc_status-rpc_status_byte RpcStatus.timeout = refl
defined_rpc_status-rpc_status_byte RpcStatus.cancelled = refl
defined_rpc_status-rpc_status_byte RpcStatus.no_handler = refl
defined_rpc_status-rpc_status_byte RpcStatus.deserialize_failed = refl
defined_rpc_status-rpc_status_byte RpcStatus.topic_not_found = refl
defined_rpc_status-rpc_status_byte RpcStatus.peer_disconnected = refl
defined_rpc_status-rpc_status_byte RpcStatus.rpc_response_orphan = refl

-- What the encoder writes.
pub encode_rpc_response_into-fields :
    (host : Endian) (out : List ℕ) (h : BidirectionalHeader) (s : RpcStatus) (ret : List ℕ)
    → IsBidirectionalHeader h
    → encode_rpc_response_into host out h s ret
      ≡ some (flatten (bidirectional_fields h) ++ (rpc_status_byte s ∷ ret))
unfolding encode_rpc_response_into
encode_rpc_response_into-fields host out h s ret v =
    let body = rpc_status_byte s ∷ ret in
    let region = resize (bidirectional_header_size + 1 + length ret) out in
    let chunks = (rpc_status_byte s ∷ []) ∷ ret ∷ [] in
    let all : flatten (bidirectional_fields h ++ chunks)
        ≡ flatten (bidirectional_fields h) ++ body =
      ap (λ t. join (bidirectional_fields h) (rpc_status_byte s ∷ t)) (append-nil ret)
      ∙ sym (flatten-join (bidirectional_fields h) body) in
    write_bidirectional-fields host h v (fill chunks) (writer region)
    ∙ fill_lem (bidirectional_fields h ++ chunks) region (
        ap length all
        ∙ omega (
          arith,
          length-append (flatten (bidirectional_fields h)) body,
          length-bidirectional_fields h,
          length-resize (bidirectional_header_size + 1 + length ret) out,
        ))
    ∙ ap some all

-- The encoder that writes in place writes what the one that joins the status to the data returns.
encode_rpc_response_into-encode_rpc_response :
    (host : Endian) (out : List ℕ) (h : BidirectionalHeader) (s : RpcStatus) (ret : List ℕ)
    → IsBidirectionalHeader h
    → encode_rpc_response_into host out h s ret ≡ encode_rpc_response host h s ret
unfolding encode_rpc_response encode_bidirectional
encode_rpc_response_into-encode_rpc_response host out h s ret v =
    encode_rpc_response_into-fields host out h s ret v
    ∙ sym (encode_bidirectional_into-fields host h v (rpc_status_byte s ∷ ret) [])

-- What an answer decodes to is the call it answers, its status and its data.
pub decode_rpc_response-encode_rpc_response_into :
    (host host' : Endian) (out ret written : List ℕ) (h : BidirectionalHeader) (s : RpcStatus)
    → IsBidirectionalHeader h
    → encode_rpc_response_into host out h s ret ≡ some written
    → (encode_rpc_response host h s ret ≡ some written)
      × (decode_rpc_response host' written
          ≡ some (record { header = h; status = s; return_data = ret }))
unfolding decode_rpc_response split_response
decode_rpc_response-encode_rpc_response_into host host' out ret written h s v e =
    let joined : encode_rpc_response host h s ret ≡ some written =
      sym (encode_rpc_response_into-encode_rpc_response host out h s ret v) ∙ e in
    let same : written ≡ flatten (bidirectional_fields h) ++ (rpc_status_byte s ∷ ret) =
      unfold encode_rpc_response encode_bidirectional in
      cc (joined, encode_bidirectional_into-fields host h v (rpc_status_byte s ∷ ret) []) in
    (
      joined,
      rw
          (
            same,
            decode_bidirectional-fields host' h v (rpc_status_byte s ∷ ret),
            defined_rpc_status-rpc_status_byte s,
          )
          refl,
    )
