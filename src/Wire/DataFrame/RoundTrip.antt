-- ===== src/Wire/DataFrame/RoundTrip.antt =====
-- The headers of calls: what is written, and that it is read back.
use plexus.Common.{ℕ, ◌+◌, ◌≡◌, refl, sym, ap, ◌∙◌, arith, ltb, false, le→not_ltb}
use plexus.Common.{Option, some, ◌>>=◌, List, [], ◌∷◌, ◌++◌, append-nil, length, length-append}
use mathlib.Core.Path.{subst}
use plexus.Wire.ByteOrder.{Endian, be_bytes}
use plexus.Wire.ByteOrder.Swap.{write_u64-be_bytes}
use plexus.Wire.Writer
use plexus.Wire.Writer.{Writer, writer, resize}
use plexus.Wire.Writer.Fill.{
  fill, fill_lem, fill_then, fill_then_bind, flatten, join, flatten-join, length-resize,
}
use plexus.Wire.Reader.{Reader, reader, rest}
use plexus.Wire.Reader.Take.{At, reader-At, rest-At, u8-At, u64-At}
use plexus.Wire.DataFrame.{BidirectionalHeader}
use plexus.Wire.DataFrame.{bidirectional_header_size}
use plexus.Wire.DataFrame.{
  write_bidirectional, encode_bidirectional_into, read_bidirectional, decode_bidirectional,
}
use plexus.Wire.DataFrame.Unidirectional.{
  IsBidirectionalHeader, bidirectional_fields, length-bidirectional_fields,
}

module _ (host : Endian) (h : BidirectionalHeader) (v : IsBidirectionalHeader h) where
  -- The six fields of a bidirectional header, in front of whatever else is written.
  pub write_bidirectional-fields {ℓ} :
      {B : Type ℓ} (k : Writer → Option B) (w : Writer)
      → (write_bidirectional host h w >>= k) ≡ fill_then (bidirectional_fields h) k w
  unfolding write_bidirectional
  write_bidirectional-fields k w =
      rw
        (
          write_u64-be_bytes host h.sequence v.sequence_fits,
          write_u64-be_bytes host h.topic_hash v.topic_hash_fits,
          write_u64-be_bytes host h.type_hash_1 v.type_hash_1_fits,
          write_u64-be_bytes host h.type_hash_2 v.type_hash_2_fits,
          write_u64-be_bytes host h.correlation_id v.correlation_id_fits,
        )
        (fill_then_bind
          ((h.source ∷ [])
            ∷ be_bytes 8 h.sequence
            ∷ be_bytes 8 h.topic_hash
            ∷ be_bytes 8 h.type_hash_1
            ∷ be_bytes 8 h.type_hash_2
            ∷ [])
          (Writer.bytes (be_bytes 8 h.correlation_id)) k w)

  pub read_bidirectional-fields :
      (r : Reader) (rest : List ℕ)
      → At r (join (bidirectional_fields h) rest)
      → (r' : Reader) × (read_bidirectional host r ≡ (h, r')) × At r' rest
  unfolding read_bidirectional
  read_bidirectional-fields r rest a0 =
      let (r1, e1, a1) = u8-At r _ _ a0 in
      let (r2, e2, a2) = u64-At host r1 h.sequence _ v.sequence_fits a1 in
      let (r3, e3, a3) = u64-At host r2 h.topic_hash _ v.topic_hash_fits a2 in
      let (r4, e4, a4) = u64-At host r3 h.type_hash_1 _ v.type_hash_1_fits a3 in
      let (r5, e5, a5) = u64-At host r4 h.type_hash_2 _ v.type_hash_2_fits a4 in
      let (r6, e6, a6) = u64-At host r5 h.correlation_id _ v.correlation_id_fits a5 in
      (r6, rw (e1, e2, e3, e4, e5, e6) refl, a6)

module _ (host : Endian) (h : BidirectionalHeader) (v : IsBidirectionalHeader h)
    (payload : List ℕ) where
  -- What the encoder writes.
  pub encode_bidirectional_into-fields :
      (out : List ℕ)
      → encode_bidirectional_into host out h payload
        ≡ some (flatten (bidirectional_fields h) ++ payload)
  unfolding encode_bidirectional_into
  encode_bidirectional_into-fields out =
      let region = resize (bidirectional_header_size + length payload) out in
      let all : flatten (bidirectional_fields h ++ (payload ∷ []))
          ≡ flatten (bidirectional_fields h) ++ payload =
        ap (join (bidirectional_fields h)) (append-nil payload)
        ∙ sym (flatten-join (bidirectional_fields h) payload) in
      write_bidirectional-fields host h v (fill (payload ∷ [])) (writer region)
      ∙ fill_lem (bidirectional_fields h ++ (payload ∷ [])) region (
          ap length all
          ∙ omega (
            arith,
            length-append (flatten (bidirectional_fields h)) payload,
            length-bidirectional_fields h,
            length-resize (bidirectional_header_size + length payload) out,
          ))
      ∙ ap some all

  pub decode_bidirectional-fields :
      decode_bidirectional host (flatten (bidirectional_fields h) ++ payload)
      ≡ some (record { header = h; payload = payload })
  unfolding decode_bidirectional
  decode_bidirectional-fields =
      let input = flatten (bidirectional_fields h) ++ payload in
      let long : ltb (length input) 41 ≡ false = le→not_ltb (length input) 41 (
        omega (
          arith,
          length-append (flatten (bidirectional_fields h)) payload,
          length-bidirectional_fields h,
        )) in
      let (r1, e1, a1) = read_bidirectional-fields host h v (reader input) payload (
        subst (At (reader input)) (flatten-join (bidirectional_fields h) payload)
          (reader-At input)) in
      rw (long, e1) (ap (λ t. some (record { header = h; payload = t })) (rest-At a1))

-- A bidirectional frame is decoded to what was encoded.
pub decode_bidirectional-encode_bidirectional_into :
    (host host' : Endian) (out payload written : List ℕ) (h : BidirectionalHeader)
    → IsBidirectionalHeader h
    → encode_bidirectional_into host out h payload ≡ some written
    → decode_bidirectional host' written ≡ some (record { header = h; payload = payload })
decode_bidirectional-encode_bidirectional_into host host' out payload written h v e =
    let same : written ≡ flatten (bidirectional_fields h) ++ payload =
      cc (encode_bidirectional_into-fields host h v payload out) in
    rw same (decode_bidirectional-fields host' h v payload)
