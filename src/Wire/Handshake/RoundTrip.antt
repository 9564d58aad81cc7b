-- ===== src/Wire/Handshake/RoundTrip.antt =====
-- The handshake's frames: what is written, and that it is read back.
use mathlib.Core.Path.{subst}
use plexus.Common.{ℕ, ◌<◌, ◌^◌, ◌≡◌, refl, sym, ap, ◌∙◌, arith, ltb, le→not_ltb, false}
use plexus.Common.{
  Option, none, some, ◌⊎◌, ◌>>=◌, List, [], ◌∷◌, ◌++◌, append-nil, length, length-append, replicate,
  drop, get_or,
}
use plexus.Wire.ByteOrder.{Endian, be_bytes}
use plexus.Wire.ByteOrder.Swap.{write_u64-be_bytes, length-be_bytes}
use plexus.Wire.Writer.{Writer, writer, resize}
use plexus.Wire.Writer
use plexus.Wire.Writer.Fill.{
  fill, fill_lem, fill_then, fill_then_bind, flatten, join, flatten-join, length-resize,
}
use plexus.Wire.Reader
use plexus.Wire.Reader.{Reader, reader}
use plexus.Wire.Reader.Take.{At, reader-At, u8-At, u64-At, copy_to-At}
use plexus.Wire.Handshake.{
  HandshakeStatus, HandshakeRequest, HandshakeResponse, handshake_status_byte,
  defined_handshake_status,
}
use plexus.Wire.Handshake.{write_handshake_prefix, read_handshake_prefix}
use plexus.Wire.Handshake.{
  encode_handshake_request_into, encode_handshake_response_into, decode_handshake_request,
  decode_handshake_response,
}

-- The arrays have their lengths, and the one word fits.
pub record IsHandshakeRequest (m : HandshakeRequest) : Type 0 where
  pub id_len : length m.id ≡ 16
  pub fingerprint_fits : m.fingerprint < 2 ^ 64
  pub key_id_len : length m.key_id ≡ 8
  pub own_nonce_len : length m.own_nonce ≡ 16
  pub proof_len : length m.proof ≡ 32

-- The fields in front of the proof.
abbrev pub fields : HandshakeRequest → List (List ℕ)
fields m =
    m.id
    ∷ (m.version_major ∷ [])
    ∷ (m.version_minor ∷ [])
    ∷ (m.compatible_version_major ∷ [])
    ∷ (m.compatible_version_minor ∷ [])
    ∷ (m.protocol_version ∷ [])
    ∷ be_bytes 8 m.fingerprint
    ∷ m.key_id
    ∷ m.own_nonce
    ∷ (m.cipher_offer ∷ [])
    ∷ (m.chosen_cipher ∷ [])
    ∷ []

abbrev pub all_fields : HandshakeRequest → List (List ℕ)
all_fields m = fields m ++ (m.proof ∷ [])

module _ (host : Endian) (m : HandshakeRequest) (v : IsHandshakeRequest m) where
  length-all_fields : length (flatten (all_fields m)) ≡ 87
  length-all_fields = simp (
    length-append, length-be_bytes, append-nil, v.id_len, v.key_id_len, v.own_nonce_len,
    v.proof_len,
  )

  write_handshake_prefix-fields {ℓ} :
      {B : Type ℓ} (k : Writer → Option B) (w : Writer)
      → (write_handshake_prefix host m w >>= k) ≡ fill_then (all_fields m) k w
  unfolding write_handshake_prefix
  write_handshake_prefix-fields k w =
      rw (write_u64-be_bytes host m.fingerprint v.fingerprint_fits)
        (fill_then_bind (fields m) (Writer.bytes m.proof) k w)

  -- The reads one after the other.
  chain :
      (r r1 r2 r3 r4 r5 r6 r7 r8 r9 r10 r11 r12 : Reader)
      → Reader.copy_to (replicate 16 0) 16 r ≡ (m.id, r1)
      → Reader.u8 r1 ≡ (m.version_major, r2)
      → Reader.u8 r2 ≡ (m.version_minor, r3)
      → Reader.u8 r3 ≡ (m.compatible_version_major, r4)
      → Reader.u8 r4 ≡ (m.compatible_version_minor, r5)
      → Reader.u8 r5 ≡ (m.protocol_version, r6)
      → Reader.u64 host r6 ≡ (m.fingerprint, r7)
      → Reader.copy_to (replicate 8 0) 8 r7 ≡ (m.key_id, r8)
      → Reader.copy_to (replicate 16 0) 16 r8 ≡ (m.own_nonce, r9)
      → Reader.u8 r9 ≡ (m.cipher_offer, r10)
      → Reader.u8 r10 ≡ (m.chosen_cipher, r11)
      → Reader.copy_to (replicate 32 0) 32 r11 ≡ (m.proof, r12)
      → read_handshake_prefix host r ≡ (m, r12)
  unfolding read_handshake_prefix
  chain r r1 r2 r3 r4 r5 r6 r7 r8 r9 r10 r11 r12 e1 e2 e3 e4 e5 e6 e7 e8 e9 e10 e11 e12 =
      rw (e1, e2, e3, e4, e5, e6, e7, e8, e9, e10, e11, e12) refl

  read_handshake_prefix-fields :
      (r : Reader) (rest : List ℕ)
      → At r (join (all_fields m) rest)
      → (r' : Reader) × (read_handshake_prefix host r ≡ (m, r')) × At r' rest
  read_handshake_prefix-fields r rest a0 =
      let (r1, e1, a1) = copy_to-At r _ 16 (replicate 16 0) m.id v.id_len a0 in
      let (r2, e2, a2) = u8-At r1 _ m.version_major a1 in
      let (r3, e3, a3) = u8-At r2 _ m.version_minor a2 in
      let (r4, e4, a4) = u8-At r3 _ m.compatible_version_major a3 in
      let (r5, e5, a5) = u8-At r4 _ m.compatible_version_minor a4 in
      let (r6, e6, a6) = u8-At r5 _ m.protocol_version a5 in
      let (r7, e7, a7) = u64-At host r6 m.fingerprint _ v.fingerprint_fits a6 in
      let (r8, e8, a8) = copy_to-At r7 _ 8 (replicate 8 0) m.key_id v.key_id_len a7 in
      let (r9, e9, a9) = copy_to-At r8 _ 16 (replicate 16 0) m.own_nonce v.own_nonce_len a8 in
      let (r10, e10, a10) = u8-At r9 _ m.cipher_offer a9 in
      let (r11, e11, a11) = u8-At r10 _ m.chosen_cipher a10 in
      let (r12, e12, a12) = copy_to-At r11 _ 32 (replicate 32 0) m.proof v.proof_len a11 in
      (
        r12,
        chain r r1 r2 r3 r4 r5 r6 r7 r8 r9 r10 r11 r12 e1 e2 e3 e4 e5 e6 e7 e8 e9 e10 e11 e12,
        a12,
      )

defined_handshake_status-handshake_status_byte :
    (s : HandshakeStatus) → defined_handshake_status (handshake_status_byte s) ≡ some s
unfolding defined_handshake_status handshake_status_byte
defined_handshake_status-handshake_status_byte HandshakeStatus.accepted = refl
defined_handshake_status-handshake_status_byte HandshakeStatus.version_incompatible = refl
defined_handshake_status-handshake_status_byte HandshakeStatus.identity_conflict = refl
defined_handshake_status-handshake_status_byte HandshakeStatus.rejected_unknown = refl
defined_handshake_status-handshake_status_byte HandshakeStatus.unauthorized = refl

-- The statuses are the bytes from 1 to 5.
defined_handshake_status-outside :
    (byte : ℕ) → (byte ≡ 0) ⊎ (5 < byte) → defined_handshake_status byte ≡ none
unfolding defined_handshake_status
defined_handshake_status-outside byte outside = ground (arith, outside)

-- A request of well-formed arrays is written whole and decoded as it was sent.
pub decode_handshake_request-encode_handshake_request_into :
    (host host' : Endian) (out : List ℕ) (m : HandshakeRequest)
    → IsHandshakeRequest m
    → (encode_handshake_request_into host out m >>= decode_handshake_request host') ≡ some m
unfolding encode_handshake_request_into decode_handshake_request
decode_handshake_request-encode_handshake_request_into host host' out m v =
    let written : fill (all_fields m) (writer (resize 87 out)) ≡ some (flatten (all_fields m)) =
      fill_lem (all_fields m) (resize 87 out)
        (omega (arith, length-all_fields host m v, length-resize 87 out)) in
    let input = flatten (all_fields m) in
    let long : ltb (length input) 87 ≡ false =
      le→not_ltb (length input) 87 (omega (arith, length-all_fields host m v)) in
    let (r1, e1, a1) = read_handshake_prefix-fields host' m v (reader input) [] (
      subst (At (reader input)) (sym (append-nil input) ∙ flatten-join (all_fields m) [])
        (reader-At input)) in
    rw
      (
        write_handshake_prefix-fields host m v (λ w. some w.region) (writer (resize 87 out)),
        written,
        e1,
        long,
      )
      refl

module _ (host host' : Endian) (out : List ℕ) (m : HandshakeResponse)
    (v : IsHandshakeRequest m.prefix) where
  -- A response is the prefix and a byte, and is read as what that byte stands for.
  decode_handshake_response-byte :
      (byte : ℕ)
      → decode_handshake_response host' (flatten (all_fields m.prefix) ++ (byte ∷ []))
        ≡ (defined_handshake_status byte >>= λ s. some (record { prefix = m.prefix; status = s }))
  unfolding decode_handshake_response
  decode_handshake_response-byte byte =
      let front = flatten (all_fields m.prefix) in
      let input = front ++ (byte ∷ []) in
      let long : ltb (length input) 88 ≡ false =
        le→not_ltb (length input) 88
          (omega (arith, length-append front (byte ∷ []), length-all_fields host m.prefix v)) in
      let (r1, e1, a1) = read_handshake_prefix-fields host' m.prefix v (reader input) (byte ∷ []) (
        subst (At (reader input)) (flatten-join (all_fields m.prefix) (byte ∷ []))
          (reader-At input)) in
      let (r2, e2, a2) = u8-At r1 [] byte a1 in rw (e1, e2, long) refl

  pub encode_handshake_response_into-byte :
      encode_handshake_response_into host out m
      ≡ some (flatten (all_fields m.prefix) ++ (handshake_status_byte m.status ∷ []))
  unfolding encode_handshake_response_into
  encode_handshake_response_into-byte =
      let byte = handshake_status_byte m.status in
      let front = flatten (all_fields m.prefix) in
      let chunks = all_fields m.prefix ++ ((byte ∷ []) ∷ []) in
      let all : flatten chunks ≡ front ++ (byte ∷ []) =
        sym (flatten-join (all_fields m.prefix) (byte ∷ [])) in
      write_handshake_prefix-fields host m.prefix v (fill ((byte ∷ []) ∷ []))
        (writer (resize 88 out))
      ∙ fill_lem chunks (resize 88 out) (
          ap length all
          ∙ omega (
            arith,
            length-append front (byte ∷ []),
            length-all_fields host m.prefix v,
            length-resize 88 out,
          ))
      ∙ ap some all

-- A response of well-formed arrays is decoded as it was sent; with its last byte replaced by one
-- that is 0 or more than 5, it is refused.
pub decode_handshake_response-encode_handshake_response_into :
    (host host' : Endian) (out written front : List ℕ) (m : HandshakeResponse) (byte byte' : ℕ)
    → IsHandshakeRequest m.prefix
    → encode_handshake_response_into host out m ≡ some written
    → written ≡ front ++ (byte ∷ [])
    → (byte' ≡ 0) ⊎ (5 < byte')
    → (decode_handshake_response host' written ≡ some m)
      × (decode_handshake_response host' (front ++ (byte' ∷ [])) ≡ none)
decode_handshake_response-encode_handshake_response_into host host' out written front m byte byte' v
      e split outside =
    let undefined = defined_handshake_status-outside byte' outside in
    let fields = flatten (all_fields m.prefix) in
    let same : written ≡ fields ++ (handshake_status_byte m.status ∷ []) =
      cc (encode_handshake_response_into-byte host host' out m v) in
    let front_same : front ≡ fields =
      last_split front fields byte (handshake_status_byte m.status) (sym split ∙ same) in
    (
      rw
          (
            same,
            decode_handshake_response-byte host host' out m v (handshake_status_byte m.status),
            defined_handshake_status-handshake_status_byte m.status,
          )
          refl,
      rw (front_same, decode_handshake_response-byte host host' out m v byte', undefined) refl,
    )
  where
    last_split : (xs ys : List ℕ) (a b : ℕ) → xs ++ (a ∷ []) ≡ ys ++ (b ∷ []) → xs ≡ ys
    last_split [] [] a b e = refl
    last_split [] (y ∷ ys) a b e = absurd (omega (arith, ap length e, length-append ys (b ∷ [])))
    last_split (x ∷ xs) [] a b e = absurd (omega (arith, ap length e, length-append xs (a ∷ [])))
    last_split (x ∷ xs) (y ∷ ys) a b e =
        let head : x ≡ y = ap (λ t. get_or t 0 0) e in
        rw head (ap (λ t. y ∷ t) (last_split xs ys a b (ap (drop 1) e)))
