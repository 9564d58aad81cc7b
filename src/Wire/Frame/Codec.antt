-- ===== src/Wire/Frame/Codec.antt =====
-- frame_codec.h. An encoder answers `none` where it would write past its buffer.
use plexus.Common.{
  ℕ, ◌+◌, Option, none, some, ◌>>=◌, List, length, replicate, get_or, ltb, ◌==◌, not, ◌||◌, ◌++◌,
  if◌then◌else◌,
}
use plexus.Wire.ByteOrder.{Endian}
use plexus.Wire.Frame.{FrameHeader, header_size, magic_byte_0, magic_byte_1}
use plexus.Wire.Writer
use plexus.Wire.Writer.{writer, resize}
use plexus.Wire.Reader
use plexus.Wire.Reader.{reader}

unfoldable pub encode_header : Endian → FrameHeader → Option (List ℕ)
encode_header host hdr = do
  w ← Writer.u8 magic_byte_0 (writer (replicate header_size 0))
  w ← Writer.u8 magic_byte_1 w
  w ← Writer.u8 hdr.type w
  w ← Writer.u8 hdr.flags w
  w ← Writer.u64 host hdr.session_id w
  w ← Writer.u64 host hdr.timestamp_ns w
  w ← Writer.u64 host hdr.payload_len w
  some w.region

-- The initialisers run in their order. The two magic bytes are read again and not used.
unfoldable pub read_header : Endian → List ℕ → FrameHeader
read_header host input =
    let (_, r) = Reader.u8 (reader input) in
    let (_, r) = Reader.u8 r in
    let (type, r) = Reader.u8 r in
    let (flags, r) = Reader.u8 r in
    let (session_id, r) = Reader.u64 host r in
    let (timestamp_ns, r) = Reader.u64 host r in
    let (payload_len, r) = Reader.u64 host r in
    record {
      type = type;
      flags = flags;
      session_id = session_id;
      timestamp_ns = timestamp_ns;
      payload_len = payload_len;
    }

unfoldable pub decode_header : Endian → List ℕ → Option FrameHeader
unfolding read_header
decode_header host input =
    if ltb (length input) header_size
    then none
    else if not (get_or input 0 0 == magic_byte_0) || not (get_or input 1 0 == magic_byte_1)
    then none
    else some (read_header host input)

unfoldable pub encode_frame : Endian → FrameHeader → List ℕ → Option (List ℕ)
encode_frame host hdr payload =
    let adjusted = record hdr { payload_len = length payload } in
    do header_bytes ← encode_header host adjusted; some (header_bytes ++ payload)

-- The two copies into the reused buffer are the writes of a cursor.
unfoldable pub encode_frame_into : Endian → List ℕ → FrameHeader → List ℕ → Option (List ℕ)
encode_frame_into host out hdr payload =
    let adjusted = record hdr { payload_len = length payload } in
    do
      header_bytes ← encode_header host adjusted
      w ← Writer.bytes header_bytes (writer (resize (header_size + length payload) out))
      w ← Writer.bytes payload w
      some w.region
