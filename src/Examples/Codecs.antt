-- ===== src/Examples/Codecs.antt =====
-- The field codecs at concrete inputs: lib/plexus-wire/include/plexus/wire.
use plexus.Common.{ℕ, ◌+◌, ◌^◌, ◌<◌, ◌≤◌, ◌≡◌, refl, arith, List, [], ◌∷◌, ◌++◌, length, some}
use plexus.Wire.ByteOrder.{little, big}
use plexus.Wire.Varint.{read_varint, read_loop, varint_step, write_varint}
use plexus.Wire.Varint.Decode.{read_varint_takes, read_varint-write_varint}
use plexus.Wire.Frame.{FrameHeader, IsFrameHeader}
use plexus.Wire.Frame.Codec.{decode_header}
use plexus.Wire.Frame.RoundTrip.{header_layout, encode_header-layout}
use plexus.Wire.Frame.RoundTrip.{decode_header-encode_header}

abbrev seven : List ℕ
seven = 7 ∷ []

-- The number 300 behind another byte.
abbrev three_hundred : List ℕ
three_hundred = 7 ∷ 0xac ∷ 0x02 ∷ []

abbrev payload_bytes : List ℕ
payload_bytes = 4 ∷ 5 ∷ 6 ∷ []

abbrev prefixed_payload : List ℕ
prefixed_payload = 8 ∷ 9 ∷ []

read_varint-write_varint_example :
    read_varint (write_varint seven 300 ++ (9 ∷ [])) (length seven)
    ≡ some (300, length (write_varint seven 300))
read_varint-write_varint_example = read_varint-write_varint 300 seven (9 ∷ []) (omega arith)

read_varint_takes_example : (300 < 2 ^ 64) × (1 < 3) × (3 ≤ length three_hundred) × (3 ≤ 1 + 10)
unfolding read_varint read_loop varint_step
read_varint_takes_example = read_varint_takes three_hundred 1 300 3 refl

abbrev prefixed : List ℕ
prefixed = 5 ∷ 0 ∷ 2 ∷ 8 ∷ 9 ∷ 4 ∷ []

abbrev header : FrameHeader
header = record { type = 1; flags = 0; session_id = 7; timestamp_ns = 900; payload_len = 2 }

header-IsFrameHeader : IsFrameHeader header
header-IsFrameHeader = record {
  type_fits = omega arith;
  flags_fits = omega arith;
  session_id_fits = omega arith;
  timestamp_ns_fits = omega arith;
  payload_len_fits = omega arith;
}

decode_header-encode_header_example :
    decode_header big (header_layout header ++ (5 ∷ [])) ≡ some header
decode_header-encode_header_example =
    decode_header-encode_header little big header (5 ∷ []) (header_layout header)
      header-IsFrameHeader (encode_header-layout little header header-IsFrameHeader)
