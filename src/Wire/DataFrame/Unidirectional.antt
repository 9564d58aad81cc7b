-- ===== src/Wire/DataFrame/Unidirectional.antt =====
-- The frames of published data: what is written, and that it is read back.
use plexus.Common.{
  ℕ, ◌+◌, ◌<◌, ◌≤◌, ◌^◌, ◌≡◌, refl, sym, ap, ◌∙◌, arith, ltb, Bool, true, false, le→not_ltb,
}
use plexus.Common.{
  Option, none, some, ◌>>=◌, List, [], ◌∷◌, ◌++◌, append_assoc, append-nil, length, length-append,
}
use mathlib.Core.Path.{subst, fun_ext}
use plexus.Wire.ByteOrder.{Endian, be_bytes}
use plexus.Wire.ByteOrder.Swap.{write_u64-be_bytes, length-be_bytes}
use plexus.Wire.Varint.{write_varint}
use plexus.Wire.Varint.Encode.{leb128, length-leb128, write_varint-leb128, varint_size-length}
use plexus.Wire.Writer
use plexus.Wire.Writer.{Writer, writer, resize}
use plexus.Wire.Writer.Fill.{
  fill, fill_lem, fill_then_lem, fill_then, filled, flatten, join, flatten-join, length-resize,
  varint-leb128,
}
use plexus.Wire.Reader.{Reader, reader}
use plexus.Wire.Reader.Take.{At, reader-At, rest-At, u8-At, u64-At, varint-At}
use plexus.Wire.Frame.{FrameHeader, IsFrameHeader, header_size}
use plexus.Wire.Frame.Codec.{encode_frame}
use plexus.Wire.Frame.RoundTrip.{
  header_layout, length-header_layout, encode_header-layout, encode_frame_into-encode_frame,
}
use plexus.Wire.DataFrame.{UnidirectionalHeader, BidirectionalHeader}
use plexus.Wire.DataFrame.{unidirectional_header_size}
use plexus.Wire.DataFrame.{
  encode_unidirectional_into, encode_unidirectional, encode_unidirectional_frame_into,
  write_counter, counter_size,
}
use plexus.Wire.DataFrame.{read_unidirectional, with_counter, read_counter, decode_unidirectional}

-- The fields fit their types.
pub record IsUnidirectionalHeader (h : UnidirectionalHeader) : Type 0 where
  pub source_fits : h.source < 2 ^ 8
  pub sequence_fits : h.sequence < 2 ^ 64
  pub topic_hash_fits : h.topic_hash < 2 ^ 64

pub record IsBidirectionalHeader (h : BidirectionalHeader) : Type 0 where
  pub source_fits : h.source < 2 ^ 8
  pub sequence_fits : h.sequence < 2 ^ 64
  pub topic_hash_fits : h.topic_hash < 2 ^ 64
  pub type_hash_1_fits : h.type_hash_1 < 2 ^ 64
  pub type_hash_2_fits : h.type_hash_2 < 2 ^ 64
  pub correlation_id_fits : h.correlation_id < 2 ^ 64

abbrev pub unidirectional_fields : UnidirectionalHeader → List (List ℕ)
unidirectional_fields h = (h.source ∷ []) ∷ be_bytes 8 h.sequence ∷ be_bytes 8 h.topic_hash ∷ []

abbrev pub bidirectional_fields : BidirectionalHeader → List (List ℕ)
bidirectional_fields h =
    (h.source ∷ [])
    ∷ be_bytes 8 h.sequence
    ∷ be_bytes 8 h.topic_hash
    ∷ be_bytes 8 h.type_hash_1
    ∷ be_bytes 8 h.type_hash_2
    ∷ be_bytes 8 h.correlation_id
    ∷ []

abbrev pub counter_bytes : Option ℕ → List ℕ
counter_bytes none = []
counter_bytes (some c) = leb128 9 c

abbrev pub IsCounter : Option ℕ → Type 0
IsCounter none = Unit
IsCounter (some c) = c < 2 ^ 64

abbrev pub has : Option ℕ → Bool
has none = false
has (some c) = true

length-unidirectional_fields :
    (h : UnidirectionalHeader) → length (flatten (unidirectional_fields h)) ≡ 17
length-unidirectional_fields h = simp (length-append, length-be_bytes)

pub length-bidirectional_fields :
    (h : BidirectionalHeader) → length (flatten (bidirectional_fields h)) ≡ 41
length-bidirectional_fields h = simp (length-append, length-be_bytes)

-- What the encoder appends behind the fixed header.
abbrev append_tail : Option ℕ → List ℕ → Writer → Option (List ℕ)
append_tail c payload w =
    some (elim c [ none ↦ w.region | some c ↦ write_varint w.region c ] ++ payload)

module _ (host : Endian) (out payload : List ℕ) (h : UnidirectionalHeader) (c : Option ℕ)
    (v : IsUnidirectionalHeader h) (vc : IsCounter c) where
  -- What the encoder writes.
  pub encode_unidirectional_into-fields :
      encode_unidirectional_into host out h payload c
      ≡ some (flatten (unidirectional_fields h) ++ (counter_bytes c ++ payload))
  unfolding encode_unidirectional_into
  encode_unidirectional_into-fields =
      rw
        (
          write_u64-be_bytes host h.sequence v.sequence_fits,
          write_u64-be_bytes host h.topic_hash v.topic_hash_fits,
        )
        (fill_then_lem (unidirectional_fields h) (append_tail c payload) (resize 17 out)
            (omega (arith, length-resize 17 out, length-unidirectional_fields h))
          ∙ grown c vc)
    where
      grown :
          (c : Option ℕ)
          → IsCounter c
          → append_tail c payload (filled (flatten (unidirectional_fields h)))
            ≡ some (flatten (unidirectional_fields h) ++ (counter_bytes c ++ payload))
      grown none vc = refl
      grown (some c) vc = rw (
        write_varint-leb128 c (flatten (unidirectional_fields h)) vc,
        append_assoc (flatten (unidirectional_fields h)) (leb128 9 c) payload,
      )

module _ (host : Endian) (h : UnidirectionalHeader) (v : IsUnidirectionalHeader h)
    (rest : List ℕ) where
  read_unidirectional-fields :
      (r : Reader)
      → At r (join (unidirectional_fields h) rest)
      → (r' : Reader) × (read_unidirectional host r ≡ (h, r')) × At r' rest
  unfolding read_unidirectional
  read_unidirectional-fields r a0 =
      let (r1, e1, a1) = u8-At r _ _ a0 in
      let (r2, e2, a2) = u64-At host r1 h.sequence _ v.sequence_fits a1 in
      let (r3, e3, a3) = u64-At host r2 h.topic_hash _ v.topic_hash_fits a2 in
      (r3, rw (e1, e2, e3) refl, a3)

  read_counter_lem :
      (c : Option ℕ) (payload : List ℕ) (r : Reader)
      → IsCounter c
      → At r (counter_bytes c ++ payload)
      → read_counter (has c) h r
        ≡ some (record { header = h; endpoint_counter = c; payload = payload })
  unfolding read_counter with_counter
  read_counter_lem none payload r vc a = rw (rest-At a) refl
  read_counter_lem (some c) payload r vc a =
      let (r1, e1, a1) = varint-At r payload c vc a in
      ap (with_counter h) e1
      ∙ (ap (λ t. some (record { header = h; endpoint_counter = some c; payload = t }))
          (rest-At a1))

  decode_unidirectional-fields :
      (c : Option ℕ) (payload : List ℕ)
      → IsCounter c
      → rest ≡ counter_bytes c ++ payload
      → decode_unidirectional host (flatten (unidirectional_fields h) ++ rest) (has c)
        ≡ some (record { header = h; endpoint_counter = c; payload = payload })
  unfolding decode_unidirectional read_counter
  decode_unidirectional-fields c payload vc e =
      let input = flatten (unidirectional_fields h) ++ rest in
      let long : ltb (length input) 17 ≡ false = le→not_ltb (length input) 17 (
        omega (
          arith,
          length-append (flatten (unidirectional_fields h)) rest,
          length-unidirectional_fields h,
        )) in
      let a0 = reader-At input in
      let (r1, e1, a1) =
        read_unidirectional-fields (reader input)
          (subst (At (reader input)) (flatten-join (unidirectional_fields h) rest) a0) in
      rw (long, e1) (read_counter_lem c payload r1 vc (subst (At r1) e a1))

-- What is decoded is what was encoded, with the endpoint counter or without, into whatever buffer
-- and between hosts of either byte order.
pub decode_unidirectional-encode_unidirectional_into :
    (host host' : Endian) (out payload written : List ℕ) (h : UnidirectionalHeader) (c : Option ℕ)
    → IsUnidirectionalHeader h
    → IsCounter c
    → encode_unidirectional_into host out h payload c ≡ some written
    → decode_unidirectional host' written (has c)
      ≡ some (record { header = h; endpoint_counter = c; payload = payload })
decode_unidirectional-encode_unidirectional_into host host' out payload written h c v vc e =
    let same : written ≡ flatten (unidirectional_fields h) ++ (counter_bytes c ++ payload) =
      cc (encode_unidirectional_into-fields host out payload h c v vc) in
    rw same (decode_unidirectional-fields host' h v (counter_bytes c ++ payload) c payload vc refl)

length-counter_bytes : (c : Option ℕ) → IsCounter c → counter_size c ≡ length (counter_bytes c)
unfolding counter_size
length-counter_bytes none vc = refl
length-counter_bytes (some c) vc = varint_size-length c vc

-- The writes behind the fixed header.
abbrev tail_chunks : Option ℕ → List ℕ → List (List ℕ)
tail_chunks none payload = payload ∷ []
tail_chunks (some c) payload = leb128 9 c ∷ payload ∷ []

flatten-tail_chunks :
    (c : Option ℕ) (payload : List ℕ) → flatten (tail_chunks c payload) ≡ counter_bytes c ++ payload
flatten-tail_chunks none payload = append-nil payload
flatten-tail_chunks (some c) payload = ap (λ t. leb128 9 c ++ t) (append-nil payload)

abbrev finish : Option ℕ → List ℕ → Writer → Option (List ℕ)
finish c payload w = write_counter c w >>= λ w. Writer.bytes payload w >>= λ w. some w.region

finish-fill :
    (c : Option ℕ) (payload : List ℕ)
    → IsCounter c
    → (w : Writer) → finish c payload w ≡ fill (tail_chunks c payload) w
unfolding write_counter
finish-fill none payload vc w = refl
finish-fill (some c) payload vc w =
    ap (λ o. o >>= λ w. Writer.bytes payload w >>= λ w. some w.region) (varint-leb128 c w vc)

length-counter_bytes_small : (c : Option ℕ) → length (counter_bytes c) ≤ 10
length-counter_bytes_small none = omega arith
length-counter_bytes_small (some c) = omega (arith, length-leb128 9 c)

-- Framing in one pass writes the bytes of encoding the data and then framing the result, with the
-- same length in the header.
pub encode_unidirectional_frame_into-encode_frame :
    (host : Endian) (out payload : List ℕ) (fh : FrameHeader) (h : UnidirectionalHeader)
    (c : Option ℕ)
    → IsFrameHeader fh
    → IsUnidirectionalHeader h
    → IsCounter c
    → length payload < 2 ^ 63
    → encode_unidirectional_frame_into host out fh h payload c
      ≡ (encode_unidirectional host h payload c >>= encode_frame host fh)
unfolding encode_unidirectional_frame_into encode_unidirectional
encode_unidirectional_frame_into-encode_frame host out payload fh h c vf v vc small =
    let front = flatten (unidirectional_fields h) in
    let body = front ++ (counter_bytes c ++ payload) in
    let size : unidirectional_header_size + counter_size c + length payload ≡ length body = omega (
      arith,
      length-append front (counter_bytes c ++ payload),
      length-unidirectional_fields h,
      length-append (counter_bytes c) payload,
      length-counter_bytes c vc,
    ) in
    let adjusted : FrameHeader = record fh { payload_len = length body } in
    let bounded : length body < 2 ^ 64 = omega (
      arith,
      length-append front (counter_bytes c ++ payload),
      length-unidirectional_fields h,
      length-append (counter_bytes c) payload,
      length-counter_bytes_small c,
    ) in
    let valid : IsFrameHeader adjusted = record {
      type_fits = vf.type_fits;
      flags_fits = vf.flags_fits;
      session_id_fits = vf.session_id_fits;
      timestamp_ns_fits = vf.timestamp_ns_fits;
      payload_len_fits = bounded;
    } in
    let framed = (encode_frame_into-encode_frame host [] fh body vf bounded).0 in
    let layout = header_layout adjusted in
    let chunks = layout ∷ (h.source ∷ []) ∷ be_bytes 8 h.sequence ∷ be_bytes 8 h.topic_hash ∷ [] in
    let region = resize (header_size + length body) out in
    let all : flatten (chunks ++ tail_chunks c payload) ≡ layout ++ body =
      ap (λ t. layout ++ (h.source ∷ (be_bytes 8 h.sequence ++ (be_bytes 8 h.topic_hash ++ t))))
        (flatten-tail_chunks c payload)
      ∙ ap (λ t. layout ++ t)
          (sym (flatten-join (unidirectional_fields h) (counter_bytes c ++ payload))) in
    let long : length (layout ++ body) ≡ length region = omega (
      arith,
      length-append layout body,
      length-header_layout adjusted,
      length-resize (header_size + length body) out,
    ) in
    rw
      (
        size,
        encode_header-layout host adjusted valid,
        encode_unidirectional_into-fields host [] payload h c v vc,
        framed,
        write_u64-be_bytes host h.sequence v.sequence_fits,
        write_u64-be_bytes host h.topic_hash v.topic_hash_fits,
      )
      (ap (λ k. fill_then chunks k (writer region)) (fun_ext (finish-fill c payload vc))
        ∙ fill_lem (chunks ++ tail_chunks c payload) region (ap length all ∙ long)
        ∙ ap some all)
