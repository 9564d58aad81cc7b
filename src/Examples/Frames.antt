-- ===== src/Examples/Frames.antt =====
-- The frames of data, calls and handshakes, and the datagram's wrapper, at concrete inputs.
use plexus.Common.{
  ℕ, ◌≡◌, refl, arith, List, [], ◌∷◌, ◌++◌, replicate, some, none, true, false, ◌>>=◌,
}
use plexus.Common.{inr}
use plexus.Wire.Crc32c.Bitwise.{bitwise_crc32c, crc32c-bitwise_crc32c}
use plexus.Io.PriorityBandQueue.{band_of}
use plexus.Wire.Crc32c.{
  crc32c, crc_loop, crc_round, k_crc32c_table, build_crc32c_table, table_rounds,
}
use plexus.Wire.Subscribe.{SubscribeRequest, no_qos, decode_subscribe_request}
use plexus.Wire.Subscribe.Layout.{IsSubscribeRequest, subscribe_layout}
use plexus.Wire.Subscribe.RoundTrip.{
  encode_subscribe_request-layout, decode_subscribe_request-encode_subscribe_request,
}
use plexus.Wire.ByteOrder.{little, big}
use plexus.Wire.DataFrame.{UnidirectionalHeader, BidirectionalHeader, decode_unidirectional}
use plexus.Wire.DataFrame.Unidirectional.{
  IsUnidirectionalHeader, IsBidirectionalHeader, unidirectional_fields, bidirectional_fields,
  encode_unidirectional_into-fields, decode_unidirectional-encode_unidirectional_into,
}
use plexus.Wire.Writer.Fill.{flatten}
use plexus.Wire.Varint.Encode.{leb128}
use plexus.Wire.RpcFrame.{RpcStatus, rpc_status_byte, encode_rpc_response, decode_rpc_response}
use plexus.Wire.RpcFrame.RoundTrip.{
  encode_rpc_response_into-fields, decode_rpc_response-encode_rpc_response_into,
}
use plexus.Wire.UdpAck.{UdpAck, UdpArqKind, decode_udp_ack, peek_udp_arq_kind}
use plexus.Wire.UdpAck.RoundTrip.{
  ack_frame, encode_udp_ack_into-ack_frame, decode_udp_ack-encode_udp_ack_into,
}
use plexus.Wire.UdpEnvelope.{
  wrap_udp, wrap_udp_into, wrap_udp_into_fragmented, wrap_udp_fragment_into, unwrap_udp,
}
use plexus.Wire.UdpEnvelope.{encode_udp_fragment_payload_into, decode_udp_fragment_header}
use plexus.Wire.UdpEnvelope.RoundTrip.{
  unwrap_udp-wrap_udp, decode_udp_fragment_header-wrap_udp_fragment_into,
}
use plexus.Wire.Handshake.{
  HandshakeStatus, HandshakeRequest, HandshakeResponse, handshake_status_byte,
  decode_handshake_response,
}
use plexus.Wire.Handshake.RoundTrip.{
  IsHandshakeRequest, all_fields, encode_handshake_response_into-byte,
  decode_handshake_response-encode_handshake_response_into,
}

abbrev data_header : UnidirectionalHeader
data_header = record { source = 1; sequence = 7; topic_hash = 99 }

data_header-IsUnidirectionalHeader : IsUnidirectionalHeader data_header
data_header-IsUnidirectionalHeader = record {
  source_fits = omega arith;
  sequence_fits = omega arith;
  topic_hash_fits = omega arith;
}

abbrev data_frame : List ℕ
data_frame = flatten (unidirectional_fields data_header) ++ (5 ∷ 8 ∷ 9 ∷ [])

decode_unidirectional-encode_unidirectional_into_example :
    decode_unidirectional big data_frame true
    ≡ some (record { header = data_header; endpoint_counter = some 5; payload = 8 ∷ 9 ∷ [] })
unfolding leb128
decode_unidirectional-encode_unidirectional_into_example =
    decode_unidirectional-encode_unidirectional_into little big [] (8 ∷ 9 ∷ []) data_frame
      data_header (some 5) data_header-IsUnidirectionalHeader (omega arith)
      (encode_unidirectional_into-fields little [] (8 ∷ 9 ∷ []) data_header (some 5)
        data_header-IsUnidirectionalHeader (omega arith))

abbrev call_header : BidirectionalHeader
call_header = record {
  source = 1;
  sequence = 7;
  topic_hash = 99;
  type_hash_1 = 3;
  type_hash_2 = 4;
  correlation_id = 12;
}

call_header-IsBidirectionalHeader : IsBidirectionalHeader call_header
call_header-IsBidirectionalHeader = record {
  source_fits = omega arith;
  sequence_fits = omega arith;
  topic_hash_fits = omega arith;
  type_hash_1_fits = omega arith;
  type_hash_2_fits = omega arith;
  correlation_id_fits = omega arith;
}

abbrev answer : List ℕ
answer = flatten (bidirectional_fields call_header) ++ (18 ∷ 8 ∷ [])

decode_rpc_response-encode_rpc_response_into_example :
    (encode_rpc_response little call_header RpcStatus.peer_disconnected (8 ∷ []) ≡ some answer)
    × (decode_rpc_response big answer
        ≡ some (record {
          header = call_header;
          status = RpcStatus.peer_disconnected;
          return_data = 8 ∷ [];
        }))
unfolding rpc_status_byte
decode_rpc_response-encode_rpc_response_into_example =
    decode_rpc_response-encode_rpc_response_into little big (1 ∷ []) (8 ∷ []) answer call_header
      RpcStatus.peer_disconnected call_header-IsBidirectionalHeader
      (encode_rpc_response_into-fields little (1 ∷ []) call_header RpcStatus.peer_disconnected
        (8 ∷ []) call_header-IsBidirectionalHeader)

abbrev held : UdpAck
held = record { cumulative = 41; selective = 5 ∷ replicate 31 0 }

decode_udp_ack-encode_udp_ack_into_example :
    (decode_udp_ack big (ack_frame held) ≡ some held)
    × (peek_udp_arq_kind (ack_frame held) ≡ some UdpArqKind.ack)
decode_udp_ack-encode_udp_ack_into_example =
    decode_udp_ack-encode_udp_ack_into little big [] (ack_frame held) held (omega arith) refl
      (encode_udp_ack_into-ack_frame little [] held (omega arith) refl)

unwrap_udp-wrap_udp_example :
    (wrap_udp little 1 65535 (8 ∷ []) ≡ wrap_udp_into little (3 ∷ []) 1 65535 (8 ∷ []))
    × ((wrap_udp_into little (3 ∷ []) 1 65535 (8 ∷ []) >>= unwrap_udp big)
        ≡ some (record { kind = 1; seq = 65535; frame = 8 ∷ []; fragmented = false }))
    × ((wrap_udp_into_fragmented little (3 ∷ []) 1 65535 (8 ∷ []) >>= unwrap_udp big)
        ≡ some (record { kind = 1; seq = 65535; frame = 8 ∷ []; fragmented = true }))
unwrap_udp-wrap_udp_example =
    unwrap_udp-wrap_udp little big (3 ∷ []) (8 ∷ []) 1 65535 (omega arith) (omega arith)

decode_udp_fragment_header-wrap_udp_fragment_into_example :
    (datagram : List ℕ) × (wrap_udp_fragment_into little [] 0 6 2 1 3 (8 ∷ []) ≡ some datagram)
    × ((unwrap_udp big datagram >>= λ d. some d.fragmented) ≡ some true)
    × ((unwrap_udp big datagram >>= λ d. decode_udp_fragment_header big d.frame)
        ≡ some (record { msg_id = 2; frag_idx = 1; frag_cnt = 3; payload = 8 ∷ [] }))
    × ((encode_udp_fragment_payload_into little [] 2 1 3 (8 ∷ [])
          >>= decode_udp_fragment_header big)
        ≡ some (record { msg_id = 2; frag_idx = 1; frag_cnt = 3; payload = 8 ∷ [] }))
decode_udp_fragment_header-wrap_udp_fragment_into_example =
    decode_udp_fragment_header-wrap_udp_fragment_into little big [] (8 ∷ []) 0 6 2 1 3 (omega arith)
      (omega arith) (omega arith) (omega arith) (omega arith)

abbrev greeting : HandshakeRequest
greeting = record {
  id = replicate 16 7;
  version_major = 1;
  version_minor = 2;
  compatible_version_major = 1;
  compatible_version_minor = 0;
  protocol_version = 7;
  fingerprint = 12345;
  key_id = replicate 8 3;
  own_nonce = replicate 16 4;
  cipher_offer = 1;
  chosen_cipher = 1;
  proof = replicate 32 5;
}

greeting-IsHandshakeRequest : IsHandshakeRequest greeting
greeting-IsHandshakeRequest = record {
  id_len = refl;
  fingerprint_fits = omega arith;
  key_id_len = refl;
  own_nonce_len = refl;
  proof_len = refl;
}

abbrev refusal_message : HandshakeResponse
refusal_message = record { prefix = greeting; status = HandshakeStatus.unauthorized }

decode_handshake_response-encode_handshake_response_into_example :
    (decode_handshake_response big (flatten (all_fields greeting) ++ (5 ∷ []))
      ≡ some refusal_message)
    × (decode_handshake_response big (flatten (all_fields greeting) ++ (6 ∷ [])) ≡ none)
unfolding handshake_status_byte
decode_handshake_response-encode_handshake_response_into_example =
    decode_handshake_response-encode_handshake_response_into little big []
      (flatten (all_fields greeting) ++ (5 ∷ [])) (flatten (all_fields greeting)) refusal_message 5
      6 greeting-IsHandshakeRequest
      (encode_handshake_response_into-byte little big [] refusal_message
        greeting-IsHandshakeRequest)
      refl (inr (omega arith))

abbrev subscription : SubscribeRequest
subscription = record {
  fqn = 97 ∷ 98 ∷ [];
  type_name = 99 ∷ [];
  topic_hash = 5;
  type_hash = 6;
  source = 1;
  has_qos = true;
  qos = record no_qos { replay_depth = 4 };
}

subscription-IsSubscribeRequest : IsSubscribeRequest subscription
subscription-IsSubscribeRequest = record {
  fqn_short = omega arith;
  type_name_short = omega arith;
  topic_hash_fits = omega arith;
  type_hash_fits = omega arith;
  qos_fits = record {
    replay_depth_fits = omega arith;
    deadline_fits = omega arith;
    lease_fits = omega arith;
    max_message_fits = omega arith;
  };
}

decode_subscribe_request-encode_subscribe_request_example :
    decode_subscribe_request big (subscribe_layout subscription) ≡ some subscription
decode_subscribe_request-encode_subscribe_request_example =
    decode_subscribe_request-encode_subscribe_request little big subscription
      (subscribe_layout subscription) subscription-IsSubscribeRequest
      (encode_subscribe_request-layout little subscription subscription-IsSubscribeRequest)

abbrev digits : List ℕ
digits = 49 ∷ 50 ∷ 51 ∷ 52 ∷ 53 ∷ 54 ∷ 55 ∷ 56 ∷ 57 ∷ []

crc32c-bitwise_crc32c_example : crc32c digits 0 ≡ bitwise_crc32c digits 0
crc32c-bitwise_crc32c_example =
    crc32c-bitwise_crc32c digits 0
      (
        omega arith,
        (
          omega arith,
          (
            omega arith,
            (
              omega arith,
              (omega arith, (omega arith, (omega arith, (omega arith, (omega arith, tt))))),
            ),
          ),
        ),
      )
      (omega arith)

crc32c_test : crc32c digits 0 ≡ 0xE3069283
unfolding crc32c crc_loop crc_round k_crc32c_table build_crc32c_table table_rounds
crc32c_test = refl

band_of_test : (band_of 3 ≡ 0) × (band_of 0 ≡ 3) × (band_of 9 ≡ 3)
unfolding band_of
band_of_test = (refl, refl, refl)
