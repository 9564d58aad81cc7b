-- ===== src/Wire/Frame/RoundTrip.antt =====
-- The frame codec: what it writes, and that it reads it back on any host.
use plexus.Common.{ℕ, ◌+◌, ◌≤◌, ◌<◌, ◌^◌, ◌≡◌, refl, sym, ap, ◌∙◌, arith, some}
use plexus.Common.{
  List, [], ◌∷◌, ◌++◌, append-nil, length, length-append, replicate, get_or, All, All-append,
}
use mathlib.Core.Path.{subst₂}
use plexus.Wire.ByteOrder.{Endian, be_bytes, IsByte}
use plexus.Wire.ByteOrder.Swap.{write_u64-be_bytes, length-be_bytes, be_bytes-IsByte, split_u64}
use plexus.Wire.Writer.Fill.{fill_lem, flatten, join, flatten-join, length-resize}
use plexus.Wire.Writer.{resize}
use plexus.Wire.Reader.Take.{reader-At, u8-At, u64-At}
use plexus.Wire.Frame.{FrameHeader, IsFrameHeader, header_size, magic_byte_0, magic_byte_1}
use plexus.Wire.Frame.Codec.{
  encode_header, decode_header, read_header, encode_frame, encode_frame_into,
}

-- The fields of the header on the wire, the same for every host.
unfoldable pub header_fields : FrameHeader → List (List ℕ)
header_fields h =
    (magic_byte_0 ∷ [])
    ∷ (magic_byte_1 ∷ [])
    ∷ (h.type ∷ [])
    ∷ (h.flags ∷ [])
    ∷ be_bytes 8 h.session_id
    ∷ be_bytes 8 h.timestamp_ns
    ∷ be_bytes 8 h.payload_len
    ∷ []

unfoldable pub header_layout : FrameHeader → List ℕ
unfolding header_fields
header_layout h = flatten (header_fields h)

pub length-header_layout : (h : FrameHeader) → length (header_layout h) ≡ header_size
unfolding header_layout
length-header_layout h = simp (length-append, length-be_bytes)

-- `encode_header` fills its 28 bytes, writes nothing past them, and its layout is that of any host.
pub encode_header-layout :
    (host : Endian) (h : FrameHeader)
    → IsFrameHeader h
    → encode_header host h ≡ some (header_layout h)
unfolding encode_header header_layout
encode_header-layout host h v =
    rw
      (
        write_u64-be_bytes host h.session_id v.session_id_fits,
        write_u64-be_bytes host h.timestamp_ns v.timestamp_ns_fits,
        write_u64-be_bytes host h.payload_len v.payload_len_fits,
      )
      (fill_lem (header_fields h) (replicate header_size 0) (length-header_layout h))

header_layout_magic :
    (h : FrameHeader) (rest : List ℕ)
    → (get_or (header_layout h ++ rest) 0 0 ≡ magic_byte_0)
      × (get_or (header_layout h ++ rest) 1 0 ≡ magic_byte_1)
unfolding header_layout
header_layout_magic h rest = (refl, refl)

module _ (host : Endian) (h : FrameHeader) (v : IsFrameHeader h) (rest : List ℕ) where
  -- `read_header` reads the fields in front of `rest`.
  read_header-layout : read_header host (header_layout h ++ rest) ≡ h
  unfolding read_header header_layout
  read_header-layout =
      ap (read_header host) (flatten-join (header_fields h) rest)
      ∙ (let a0 = reader-At (join (header_fields h) rest) in
          let (r1, e1, a1) = u8-At _ _ _ a0 in
          let (r2, e2, a2) = u8-At _ _ _ a1 in
          let (r3, e3, a3) = u8-At _ _ _ a2 in
          let (r4, e4, a4) = u8-At _ _ _ a3 in
          let (r5, e5, a5) = u64-At host r4 h.session_id _ v.session_id_fits a4 in
          let (r6, e6, a6) = u64-At host r5 h.timestamp_ns _ v.timestamp_ns_fits a5 in
          let (r7, e7, a7) = u64-At host r6 h.payload_len _ v.payload_len_fits a6 in
          rw (e1, e2, e3, e4, e5, e6, e7))

  pub decode_header-layout : decode_header host (header_layout h ++ rest) ≡ some h
  unfolding decode_header
  decode_header-layout = ground (
    arith,
    read_header-layout,
    length-append (header_layout h) rest,
    length-header_layout h,
    header_layout_magic h rest,
  )

-- The header that was encoded is the one decoded, on hosts of either byte order, whatever follows
-- it.
pub decode_header-encode_header :
    (host host' : Endian) (h : FrameHeader) (rest written : List ℕ)
    → IsFrameHeader h
    → encode_header host h ≡ some written
    → decode_header host' (written ++ rest) ≡ some h
decode_header-encode_header host host' h rest written v e =
    let same : written ≡ header_layout h = cc (encode_header-layout host h v) in
    rw same (decode_header-layout host' h v rest)

-- The input begins with the layout of a header.
pub record Framed (h : FrameHeader) (input : List ℕ) : Type 0 where
  pub valid : IsFrameHeader h
  pub rest : List ℕ
  pub layout : input ≡ header_layout h ++ rest

-- Every input with the magic bytes and room for a header begins with the layout of one.
Framed-input :
    (input : List ℕ)
    → All IsByte input
    → 26 ≤ length input
    → (h : FrameHeader) × Framed h (magic_byte_0 ∷ magic_byte_1 ∷ input)
unfolding header_layout
Framed-input (type ∷ flags ∷ input) (pt, (pf, p)) n =
    let (sid, in1, fits1, same1, p1) = split_u64 input p (omega arith) in
    let (ts, in2, fits2, same2, p2) = split_u64 in1 p1 (omega (arith, length_rest sid _ _ same1)) in
    let (len, in3, fits3, same3, p3) =
      split_u64 in2 p2 (omega (arith, length_rest sid _ _ same1, length_rest ts _ _ same2)) in
    let h : FrameHeader = record {
      type = type;
      flags = flags;
      session_id = sid;
      timestamp_ns = ts;
      payload_len = len;
    } in
    (
      h,
      record {
        valid = record {
          type_fits = pt;
          flags_fits = pf;
          session_id_fits = fits1;
          timestamp_ns_fits = fits2;
          payload_len_fits = fits3;
        };
        rest = in3;
        layout =
            ap (λ t. magic_byte_0 ∷ magic_byte_1 ∷ type ∷ flags ∷ t)
              (same1 ∙ ap (λ t. be_bytes 8 sid ++ t) (same2 ∙ ap (λ t. be_bytes 8 ts ++ t) same3))
            ∙ sym (flatten-join (header_fields h) in3);
      },
    )
  where
    length_rest :
        (v : ℕ) (xs rest : List ℕ) → xs ≡ be_bytes 8 v ++ rest → length xs ≡ 8 + length rest
    length_rest v xs rest e =
        omega (arith, ap length e, length-append (be_bytes 8 v) rest, length-be_bytes 8 v)
Framed-input _ p n = absurd (omega arith)

-- A header is only decoded from an input of bytes that begins with the layout of that header.
pub decode_header-Framed :
    (host : Endian) (input : List ℕ) (h : FrameHeader)
    → All IsByte input
    → decode_header host input ≡ some h
    → Framed h input
decode_header-Framed host [] h p e = absurd (unfold decode_header in cc e)
decode_header-Framed host (a ∷ []) h p e = absurd (unfold decode_header in cc e)
decode_header-Framed host (a ∷ b ∷ input) h (pa, (pb, p)) e =
    let (magic_a, magic_b, enough) = accepted in
    let (h', f) = Framed-input input p enough in
    let same : a ∷ b ∷ input ≡ magic_byte_0 ∷ magic_byte_1 ∷ input = rw (magic_a, magic_b) refl in
    let answer : decode_header host (a ∷ b ∷ input) ≡ some h' =
      rw (same, f.layout) (decode_header-layout host h' f.valid f.rest) in
    let one : h' ≡ h = cc in subst₂ Framed one (sym same) f
  where
    accepted : (a ≡ magic_byte_0) × (b ≡ magic_byte_1) × (26 ≤ length input)
    accepted = unfold decode_header in ground arith

-- Encoding into a reused buffer, whatever it holds, gives the frame of `encode_frame`: the layout of
-- the header with the payload's length, and the payload.
pub encode_frame_into-encode_frame :
    (host : Endian) (out : List ℕ) (h : FrameHeader) (payload : List ℕ)
    → IsFrameHeader h
    → length payload < 2 ^ 64
    → (encode_frame host h payload
        ≡ some (header_layout (record h { payload_len = length payload }) ++ payload))
      × (encode_frame_into host out h payload ≡ encode_frame host h payload)
unfolding encode_frame encode_frame_into
encode_frame_into-encode_frame host out h payload v n =
    let adjusted : FrameHeader = record h { payload_len = length payload } in
    let valid : IsFrameHeader adjusted = record {
      type_fits = v.type_fits;
      flags_fits = v.flags_fits;
      session_id_fits = v.session_id_fits;
      timestamp_ns_fits = v.timestamp_ns_fits;
      payload_len_fits = n;
    } in
    let e = encode_header-layout host adjusted valid in
    let bs = header_layout adjusted in
    let f = fill_lem (bs ∷ payload ∷ []) (resize (header_size + length payload) out) (
      omega (
        arith,
        length-resize (header_size + length payload) out,
        length-header_layout adjusted,
        length-append payload [],
        length-append bs (payload ++ []),
      )) in
    (rw e, rw e (f ∙ ap (λ t. some (bs ++ t)) (append-nil payload)))

pub header_layout-IsByte : (h : FrameHeader) → IsFrameHeader h → All IsByte (header_layout h)
unfolding header_layout
header_layout-IsByte h v =
    let tail =
      All-append IsByte (be_bytes 8 h.timestamp_ns) (be_bytes 8 h.payload_len ++ [])
        (be_bytes-IsByte 8 h.timestamp_ns)
        (All-append IsByte (be_bytes 8 h.payload_len) [] (be_bytes-IsByte 8 h.payload_len) tt) in
    (
      omega arith,
      (
        omega arith,
        (
          v.type_fits,
          (
            v.flags_fits,
            All-append IsByte (be_bytes 8 h.session_id) _ (be_bytes-IsByte 8 h.session_id) tail,
          ),
        ),
      ),
    )
