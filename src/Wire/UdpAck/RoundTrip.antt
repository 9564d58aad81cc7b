-- ===== src/Wire/UdpAck/RoundTrip.antt =====
-- The acknowledgement and the segment: what is written, and that it is read back.
use plexus.Common.{ℕ, ◌+◌, ◌<◌, ◌^◌, ◌≡◌, refl, sym, ap, ◌∙◌, arith, Bool-cases, inl, inr, ◌==◌}
use plexus.Common.{none, some, List, [], ◌∷◌, ◌++◌, append-nil, length, length-append}
use mathlib.Core.Path.{subst}
use plexus.Wire.ByteOrder.{Endian, be_bytes}
use plexus.Wire.ByteOrder.Swap.{write_u16-be_bytes, length-be_bytes}
use plexus.Wire.Writer.{resize}
use plexus.Wire.Writer.Fill.{fill_lem, flatten, length-resize}
use plexus.Wire.Reader.{reader}
use plexus.Wire.Reader.Take.{At, reader-At, rest-At, u8-At, u16-At, copy_to-At}
use plexus.Wire.UdpAck.{
  UdpArqKind, udp_arq_kind_byte, UdpAck, no_ack, encode_udp_ack_into, read_udp_ack, decode_udp_ack,
}
use plexus.Wire.UdpAck.{encode_udp_segment_into, decode_udp_segment, peek_udp_arq_kind}
use plexus.Wire.UdpAck.Holes.{IsBitmap}

abbrev pub ack_frame : UdpAck → List ℕ
ack_frame a = 3 ∷ (be_bytes 2 a.cumulative ++ a.selective)

pub encode_udp_ack_into-ack_frame :
    (host : Endian) (out : List ℕ) (a : UdpAck)
    → a.cumulative < 2 ^ 16
    → IsBitmap a
    → encode_udp_ack_into host out a ≡ some (ack_frame a)
unfolding encode_udp_ack_into udp_arq_kind_byte
encode_udp_ack_into-ack_frame host out a hc hb =
    let all : flatten ((3 ∷ []) ∷ be_bytes 2 a.cumulative ∷ a.selective ∷ []) ≡ ack_frame a =
      ap (λ t. 3 ∷ (be_bytes 2 a.cumulative ++ t)) (append-nil a.selective) in
    rw (write_u16-be_bytes host a.cumulative hc) (
      fill_lem ((3 ∷ []) ∷ be_bytes 2 a.cumulative ∷ a.selective ∷ []) (resize 35 out) (
        ap length all
        ∙ omega (
          arith,
          hb,
          length-append (be_bytes 2 a.cumulative) a.selective,
          length-be_bytes 2 a.cumulative,
          length-resize 35 out,
        ))
      ∙ ap some all)

-- An acknowledgement with its whole bitmap is decoded as it was sent, and its frame is known for
-- one by its marker.
pub decode_udp_ack-encode_udp_ack_into :
    (host host' : Endian) (out written : List ℕ) (a : UdpAck)
    → a.cumulative < 2 ^ 16
    → IsBitmap a
    → encode_udp_ack_into host out a ≡ some written
    → (decode_udp_ack host' written ≡ some a) × (peek_udp_arq_kind written ≡ some UdpArqKind.ack)
unfolding decode_udp_ack read_udp_ack peek_udp_arq_kind udp_arq_kind_byte
decode_udp_ack-encode_udp_ack_into host host' out written a hc hb e =
    let same : written ≡ ack_frame a = cc (encode_udp_ack_into-ack_frame host out a hc hb) in
    let whole : length (ack_frame a) ≡ 35 = omega (
      arith,
      hb,
      length-append (be_bytes 2 a.cumulative) a.selective,
      length-be_bytes 2 a.cumulative,
    ) in
    let (r1, e1, a1) = u8-At (reader (ack_frame a)) _ _ (reader-At (ack_frame a)) in
    let (r2, e2, a2) = u16-At host' r1 a.cumulative _ hc a1 in
    let (r3, e3, a3) =
      copy_to-At r2 [] 32 no_ack.selective a.selective hb
        (subst (At r2) (sym (append-nil a.selective)) a2) in
    rw (same, e1, whole, e2, e3, a1.fine) (refl, refl)

-- A segment carries its payload unchanged, and is taken for a segment and never for an
-- acknowledgement.
pub decode_udp_segment-encode_udp_segment_into :
    (host : Endian) (out payload : List ℕ)
    → (frame : List ℕ) × (encode_udp_segment_into out payload ≡ some frame)
      × (decode_udp_segment frame ≡ some payload)
      × (peek_udp_arq_kind frame ≡ some UdpArqKind.segment)
      × (decode_udp_ack host frame ≡ none)
unfolding encode_udp_segment_into decode_udp_segment peek_udp_arq_kind decode_udp_ack
    udp_arq_kind_byte
decode_udp_segment-encode_udp_segment_into host out payload =
    let frame = 2 ∷ payload in
    let all : flatten ((2 ∷ []) ∷ payload ∷ []) ≡ frame = ap (λ t. 2 ∷ t) (append-nil payload) in
    let (r1, e1, a1) = u8-At (reader frame) _ _ (reader-At frame) in
    (
      frame,
      fill_lem ((2 ∷ []) ∷ payload ∷ []) (resize (1 + length payload) out)
            (ap length all ∙ omega (arith, length-resize (1 + length payload) out))
          ∙ ap some all,
      rw (e1, rest-At a1) refl,
      rw (e1, a1.fine) refl,
      rw e1 (elim (Bool-cases (length frame == 35)) [ inl e ↦ rw e refl | inr e ↦ rw e refl ]),
    )
