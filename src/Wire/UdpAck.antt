-- ===== src/Wire/UdpAck.antt =====
-- lib/plexus-wire/include/plexus/wire/udp_ack.h: the acknowledgement of the reliable datagrams, with
-- its bitmap of what arrived out of order, and the markers of the inner frames.
pub mod RoundTrip
pub mod Holes
use plexus.Common.{ℕ, ◌+◌, ◌%◌, ◌^◌, Bool, true, false, not, ◌&&◌, ltb, ◌==◌, if◌then◌else◌}
use plexus.Common.{
  Option, none, some, ◌>>=◌, List, [], ◌∷◌, length, get_or, set, replicate, bit_and, bit_or,
}
use plexus.Wire.ByteOrder.{Endian, shr, shl}
use plexus.Wire.Writer.{Writer, writer, resize}
use plexus.Wire.Writer
use plexus.Wire.Reader.{Reader, reader, rest}
use plexus.Wire.Reader

pub data UdpArqKind : Type 0 where
  segment ack : UdpArqKind

unfoldable pub udp_arq_kind_byte : UdpArqKind → ℕ
udp_arq_kind_byte UdpArqKind.segment = 2
udp_arq_kind_byte UdpArqKind.ack = 3

abbrev pub bitmap_bytes : ℕ
bitmap_bytes = 32

abbrev pub bitmap_bits : ℕ
bitmap_bits = 256

pub record UdpAck : Type 0 where
  pub cumulative : ℕ
  pub selective : List ℕ

-- `udp_ack ack;`
unfoldable pub no_ack : UdpAck
no_ack = record { cumulative = 0; selective = replicate bitmap_bytes 0 }

unfoldable pub hole_received : UdpAck → ℕ → Bool
hole_received a i =
    ltb i bitmap_bits
    && not (bit_and (get_or a.selective (shr i 3) 0) (shl 32 1 (bit_and i 7)) == 0)

unfoldable pub mark_hole : UdpAck → ℕ → UdpAck
mark_hole a i =
    let byte = bit_or (get_or a.selective (shr i 3) 0) (shl 32 1 (bit_and i 7) % 2 ^ 8) % 2 ^ 8 in
    if ltb i bitmap_bits then record a { selective = set a.selective (shr i 3) byte } else a

abbrev pub udp_ack_frame_size : ℕ
udp_ack_frame_size = 35

unfoldable pub encode_udp_ack_into : Endian → List ℕ → UdpAck → Option (List ℕ)
encode_udp_ack_into host out a = do
  w ← Writer.u8 (udp_arq_kind_byte UdpArqKind.ack) (writer (resize udp_ack_frame_size out))
  w ← Writer.u16 host a.cumulative w
  w ← Writer.bytes a.selective w
  some w.region

-- The cumulative number and the bitmap behind the marker.
unfoldable pub read_udp_ack : Endian → Reader → UdpAck
read_udp_ack host r =
    let (cumulative, r) = Reader.u16 host r in
    let (selective, _) = Reader.copy_to no_ack.selective bitmap_bytes r in
    record { cumulative = cumulative; selective = selective }

unfoldable pub decode_udp_ack : Endian → List ℕ → Option UdpAck
decode_udp_ack host frame =
    let (marker, r) = Reader.u8 (reader frame) in
    if not (length frame == udp_ack_frame_size)
    then none
    else if not (marker == udp_arq_kind_byte UdpArqKind.ack)
    then none
    else some (read_udp_ack host r)

unfoldable pub encode_udp_segment_into : List ℕ → List ℕ → Option (List ℕ)
encode_udp_segment_into out payload = do
  w ← Writer.u8 (udp_arq_kind_byte UdpArqKind.segment) (writer (resize (1 + length payload) out))
  w ← Writer.bytes payload w
  some w.region

unfoldable pub decode_udp_segment : List ℕ → Option (List ℕ)
decode_udp_segment frame =
    let (marker, r) = Reader.u8 (reader frame) in
    if not (marker == udp_arq_kind_byte UdpArqKind.segment) then none else some (rest r)

unfoldable pub peek_udp_arq_kind : List ℕ → Option UdpArqKind
peek_udp_arq_kind frame =
    let (marker, r) = Reader.u8 (reader frame) in
    if not r.ok
    then none
    else if marker == udp_arq_kind_byte UdpArqKind.segment
    then some UdpArqKind.segment
    else if marker == udp_arq_kind_byte UdpArqKind.ack
    then some UdpArqKind.ack
    else none
