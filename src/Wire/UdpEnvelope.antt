-- ===== src/Wire/UdpEnvelope.antt =====
-- lib/plexus-wire/include/plexus/wire/udp_envelope.h and detail/udp_envelope_codec.h: the wrapper of
-- an inner frame in a datagram. A kind is the number that its two bits hold, as the source's cast
-- makes an enumerator of any of them.
pub mod RoundTrip
use plexus.Common.{ℕ, ◌+◌, ◌%◌, ◌^◌, Bool, true, false, not, ltb, ◌==◌, if◌then◌else◌}
use plexus.Common.{Option, none, some, ◌>>=◌, List, [], ◌∷◌, length, bit_and, bit_or}
use plexus.Wire.ByteOrder.{Endian, shr, shl}
use plexus.Wire.Writer.{Writer, writer, resize}
use plexus.Wire.Writer
use plexus.Wire.Reader.{Reader, reader, rest}
use plexus.Wire.Reader

abbrev pub udp_envelope_overhead : ℕ
udp_envelope_overhead = 3

abbrev pub udp_fragment_subheader : ℕ
udp_fragment_subheader = 10

abbrev pub udp_fragment_header_overhead : ℕ
udp_fragment_header_overhead = 13

abbrev pub best_effort : ℕ
best_effort = 0

abbrev pub reliable_arq : ℕ
reliable_arq = 1

abbrev pub udp_kind_shift : ℕ
udp_kind_shift = 6

abbrev pub udp_kind_mask : ℕ
udp_kind_mask = 192

abbrev pub udp_fragmented_bit : ℕ
udp_fragmented_bit = 1

unfoldable pub pack_ver_flags : ℕ → Bool → ℕ
pack_ver_flags kind fragmented =
    let bits = shl 32 kind udp_kind_shift % 2 ^ 8 in
    if fragmented then bit_or bits udp_fragmented_bit else bits

pub record UdpDecodeResult : Type 0 where
  pub kind : ℕ
  pub seq : ℕ
  pub frame : List ℕ
  pub fragmented : Bool

pub record UdpFragmentHeader : Type 0 where
  pub msg_id : ℕ
  pub frag_idx : ℕ
  pub frag_cnt : ℕ
  pub payload : List ℕ

unfoldable pub wrap_udp : Endian → ℕ → ℕ → List ℕ → Option (List ℕ)
wrap_udp host kind seq frame = do
  w ←
      Writer.u8 (pack_ver_flags kind false)
        (writer (resize (udp_envelope_overhead + length frame) []))
  w ← Writer.u16 host seq w
  w ← Writer.bytes frame w
  some w.region

unfoldable pub wrap_udp_into : Endian → List ℕ → ℕ → ℕ → List ℕ → Option (List ℕ)
wrap_udp_into host out kind seq frame = do
  w ←
      Writer.u8 (pack_ver_flags kind false)
        (writer (resize (udp_envelope_overhead + length frame) out))
  w ← Writer.u16 host seq w
  w ← Writer.bytes frame w
  some w.region

unfoldable pub unwrap_udp : Endian → List ℕ → Option UdpDecodeResult
unwrap_udp host datagram =
    let (ver_flags, r) = Reader.u8 (reader datagram) in
    let (seq, r) = Reader.u16 host r in
    if ltb (length datagram) udp_envelope_overhead
    then none
    else some (record {
      kind = shr (bit_and ver_flags udp_kind_mask) udp_kind_shift;
      seq = seq;
      frame = rest r;
      fragmented = not (bit_and ver_flags udp_fragmented_bit == 0);
    })

unfoldable pub wrap_udp_into_fragmented : Endian → List ℕ → ℕ → ℕ → List ℕ → Option (List ℕ)
wrap_udp_into_fragmented host out kind seq frame = do
  w ←
      Writer.u8 (pack_ver_flags kind true)
        (writer (resize (udp_envelope_overhead + length frame) out))
  w ← Writer.u16 host seq w
  w ← Writer.bytes frame w
  some w.region

unfoldable pub wrap_udp_fragment_into :
    Endian → List ℕ → ℕ → ℕ → ℕ → ℕ → ℕ → List ℕ → Option (List ℕ)
wrap_udp_fragment_into host out kind seq msg_id frag_idx frag_cnt frag_bytes = do
  w ←
      Writer.u8 (pack_ver_flags kind true)
        (writer (resize (udp_fragment_header_overhead + length frag_bytes) out))
  w ← Writer.u16 host seq w
  w ← Writer.u16 host msg_id w
  w ← Writer.u32 host frag_idx w
  w ← Writer.u32 host frag_cnt w
  w ← Writer.bytes frag_bytes w
  some w.region

unfoldable pub encode_udp_fragment_payload_into :
    Endian → List ℕ → ℕ → ℕ → ℕ → List ℕ → Option (List ℕ)
encode_udp_fragment_payload_into host out msg_id frag_idx frag_cnt slice = do
  w ← Writer.u16 host msg_id (writer (resize (udp_fragment_subheader + length slice) out))
  w ← Writer.u32 host frag_idx w
  w ← Writer.u32 host frag_cnt w
  w ← Writer.bytes slice w
  some w.region

unfoldable pub decode_udp_fragment_header : Endian → List ℕ → Option UdpFragmentHeader
decode_udp_fragment_header host frame =
    let (msg_id, r) = Reader.u16 host (reader frame) in
    let (frag_idx, r) = Reader.u32 host r in
    let (frag_cnt, r) = Reader.u32 host r in
    if ltb (length frame) udp_fragment_subheader
    then none
    else some
        (record { msg_id = msg_id; frag_idx = frag_idx; frag_cnt = frag_cnt; payload = rest r })
