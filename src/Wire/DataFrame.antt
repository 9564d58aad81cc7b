-- ===== src/Wire/DataFrame.antt =====
-- lib/plexus-wire/include/plexus/wire/data_frame.h and detail/data_frame_codec.h: the headers of
-- published data and of calls.
pub mod Unidirectional
pub mod RoundTrip
use plexus.Common.{ℕ, ◌+◌, Bool, true, false, not, ltb, if◌then◌else◌}
use plexus.Common.{Option, none, some, ◌>>=◌, List, [], ◌∷◌, ◌++◌, length}
use plexus.Wire.ByteOrder.{Endian}
use plexus.Wire.Varint.{write_varint, varint_size}
use plexus.Wire.Writer.{Writer, writer, resize}
use plexus.Wire.Writer
use plexus.Wire.Reader.{Reader, reader, rest}
use plexus.Wire.Reader
use plexus.Wire.Frame.{FrameHeader, header_size}
use plexus.Wire.Frame.Codec.{encode_header}

abbrev pub unidirectional_header_size : ℕ
unidirectional_header_size = 17

abbrev pub bidirectional_header_size : ℕ
bidirectional_header_size = 41

pub record UnidirectionalHeader : Type 0 where
  pub source : ℕ
  pub sequence : ℕ
  pub topic_hash : ℕ

pub record BidirectionalHeader : Type 0 where
  pub source : ℕ
  pub sequence : ℕ
  pub topic_hash : ℕ
  pub type_hash_1 : ℕ
  pub type_hash_2 : ℕ
  pub correlation_id : ℕ

-- `unidirectional_decode_result`; its `data` is `payload` here.
pub record UnidirectionalDecodeResult : Type 0 where
  pub header : UnidirectionalHeader
  pub endpoint_counter : Option ℕ
  pub payload : List ℕ

pub record BidirectionalDecodeResult : Type 0 where
  pub header : BidirectionalHeader
  pub payload : List ℕ

-- The buffer is resized to the header, written, and then grown by the counter and the data.
unfoldable pub encode_unidirectional_into :
    Endian → List ℕ → UnidirectionalHeader → List ℕ → Option ℕ → Option (List ℕ)
encode_unidirectional_into host out hdr payload endpoint_counter = do
  w ← Writer.u8 hdr.source (writer (resize unidirectional_header_size out))
  w ← Writer.u64 host hdr.sequence w
  w ← Writer.u64 host hdr.topic_hash w
  some (elim endpoint_counter [ none ↦ w.region | some c ↦ write_varint w.region c ] ++ payload)

unfoldable pub encode_unidirectional :
    Endian → UnidirectionalHeader → List ℕ → Option ℕ → Option (List ℕ)
encode_unidirectional host hdr payload endpoint_counter =
    encode_unidirectional_into host [] hdr payload endpoint_counter

-- The write of the counter, where there is one.
unfoldable pub write_counter : Option ℕ → Writer → Option Writer
write_counter none w = some w
write_counter (some c) w = Writer.varint c w

unfoldable pub counter_size : Option ℕ → ℕ
counter_size none = 0
counter_size (some c) = varint_size c

unfoldable pub encode_unidirectional_frame_into :
    Endian → List ℕ → FrameHeader → UnidirectionalHeader → List ℕ → Option ℕ → Option (List ℕ)
encode_unidirectional_frame_into host out fhdr uhdr payload endpoint_counter =
    let payload_len = unidirectional_header_size + counter_size endpoint_counter + length payload in
    let adjusted = record fhdr { payload_len = payload_len } in
    do
      header_bytes ← encode_header host adjusted
      w ← Writer.bytes header_bytes (writer (resize (header_size + payload_len) out))
      w ← Writer.u8 uhdr.source w
      w ← Writer.u64 host uhdr.sequence w
      w ← Writer.u64 host uhdr.topic_hash w
      w ← write_counter endpoint_counter w
      w ← Writer.bytes payload w
      some w.region

-- The fields of the header, read in their order.
unfoldable pub read_unidirectional : Endian → Reader → UnidirectionalHeader × Reader
read_unidirectional host r =
    let (source, r) = Reader.u8 r in
    let (sequence, r) = Reader.u64 host r in
    let (topic_hash, r) = Reader.u64 host r in
    (record { source = source; sequence = sequence; topic_hash = topic_hash }, r)

-- The frame with the counter that was read, or `std::nullopt` where it could not be.
unfoldable pub with_counter :
    UnidirectionalHeader → Option ℕ × Reader → Option UnidirectionalDecodeResult
with_counter hdr (none, r) = none
with_counter hdr (some c, r) =
    some (record { header = hdr; endpoint_counter = some c; payload = rest r })

-- The counter that follows where the frame says so.
unfoldable pub read_counter :
    Bool → UnidirectionalHeader → Reader → Option UnidirectionalDecodeResult
read_counter false hdr r = some (record { header = hdr; endpoint_counter = none; payload = rest r })
read_counter true hdr r = with_counter hdr (Reader.varint r)

unfoldable pub decode_unidirectional : Endian → List ℕ → Bool → Option UnidirectionalDecodeResult
decode_unidirectional host payload has_source_identity =
    if ltb (length payload) unidirectional_header_size
    then none
    else let (hdr, r) = read_unidirectional host (reader payload) in
      read_counter has_source_identity hdr r

-- The six fields that every bidirectional frame begins with.
unfoldable pub write_bidirectional : Endian → BidirectionalHeader → Writer → Option Writer
write_bidirectional host hdr w = do
  w ← Writer.u8 hdr.source w
  w ← Writer.u64 host hdr.sequence w
  w ← Writer.u64 host hdr.topic_hash w
  w ← Writer.u64 host hdr.type_hash_1 w
  w ← Writer.u64 host hdr.type_hash_2 w
  Writer.u64 host hdr.correlation_id w

unfoldable pub encode_bidirectional_into :
    Endian → List ℕ → BidirectionalHeader → List ℕ → Option (List ℕ)
encode_bidirectional_into host out hdr payload = do
  w ←
      write_bidirectional host hdr
        (writer (resize (bidirectional_header_size + length payload) out))
  w ← Writer.bytes payload w
  some w.region

unfoldable pub encode_bidirectional : Endian → BidirectionalHeader → List ℕ → Option (List ℕ)
encode_bidirectional host hdr payload = encode_bidirectional_into host [] hdr payload

unfoldable pub read_bidirectional : Endian → Reader → BidirectionalHeader × Reader
read_bidirectional host r =
    let (source, r) = Reader.u8 r in
    let (sequence, r) = Reader.u64 host r in
    let (topic_hash, r) = Reader.u64 host r in
    let (type_hash_1, r) = Reader.u64 host r in
    let (type_hash_2, r) = Reader.u64 host r in
    let (correlation_id, r) = Reader.u64 host r in
    (
      record {
        source = source;
        sequence = sequence;
        topic_hash = topic_hash;
        type_hash_1 = type_hash_1;
        type_hash_2 = type_hash_2;
        correlation_id = correlation_id;
      },
      r,
    )

unfoldable pub decode_bidirectional : Endian → List ℕ → Option BidirectionalDecodeResult
decode_bidirectional host payload =
    if ltb (length payload) bidirectional_header_size
    then none
    else let (hdr, r) = read_bidirectional host (reader payload) in
      some (record { header = hdr; payload = rest r })
