-- ===== src/Wire/Handshake.antt =====
-- lib/plexus-wire/include/plexus/wire/handshake.h and detail/handshake_codec.h: the two messages of
-- the handshake and their frames of fixed size.
pub mod RoundTrip
use plexus.Common.{ℕ, Bool, true, false, ltb, ◌==◌, if◌then◌else◌}
use plexus.Common.{Option, none, some, ◌>>=◌, List, [], ◌∷◌, length, replicate}
use plexus.Wire.ByteOrder.{Endian}
use plexus.Wire.Writer.{Writer, writer, resize}
use plexus.Wire.Writer
use plexus.Wire.Reader.{Reader, reader}
use plexus.Wire.Reader

abbrev pub k_protocol_version : ℕ
k_protocol_version = 7

pub data HandshakeStatus : Type 0 where
  accepted version_incompatible identity_conflict rejected_unknown unauthorized : HandshakeStatus

-- `static_cast<std::uint8_t>(status)`.
unfoldable pub handshake_status_byte : HandshakeStatus → ℕ
handshake_status_byte HandshakeStatus.accepted = 1
handshake_status_byte HandshakeStatus.version_incompatible = 2
handshake_status_byte HandshakeStatus.identity_conflict = 3
handshake_status_byte HandshakeStatus.rejected_unknown = 4
handshake_status_byte HandshakeStatus.unauthorized = 5

-- `static_cast<handshake_status>(byte)` where `is_defined_handshake_status(byte)`, and `none` where
-- it is not.
unfoldable pub defined_handshake_status : ℕ → Option HandshakeStatus
defined_handshake_status byte =
    if byte == 1
    then some HandshakeStatus.accepted
    else if byte == 2
    then some HandshakeStatus.version_incompatible
    else if byte == 3
    then some HandshakeStatus.identity_conflict
    else if byte == 4
    then some HandshakeStatus.rejected_unknown
    else if byte == 5
    then some HandshakeStatus.unauthorized
    else none

pub record HandshakeRequest : Type 0 where
  pub id : List ℕ
  pub version_major : ℕ
  pub version_minor : ℕ
  pub compatible_version_major : ℕ
  pub compatible_version_minor : ℕ
  pub protocol_version : ℕ
  pub fingerprint : ℕ
  pub key_id : List ℕ
  pub own_nonce : List ℕ
  pub cipher_offer : ℕ
  pub chosen_cipher : ℕ
  pub proof : List ℕ

-- A response is a request and a status.
pub record HandshakeResponse : Type 0 where
  pub prefix : HandshakeRequest
  pub status : HandshakeStatus

abbrev pub handshake_request_size : ℕ
handshake_request_size = 87

abbrev pub handshake_response_size : ℕ
handshake_response_size = 88

unfoldable pub write_handshake_prefix : Endian → HandshakeRequest → Writer → Option Writer
write_handshake_prefix host m w = do
  w ← Writer.bytes m.id w
  w ← Writer.u8 m.version_major w
  w ← Writer.u8 m.version_minor w
  w ← Writer.u8 m.compatible_version_major w
  w ← Writer.u8 m.compatible_version_minor w
  w ← Writer.u8 m.protocol_version w
  w ← Writer.u64 host m.fingerprint w
  w ← Writer.bytes m.key_id w
  w ← Writer.bytes m.own_nonce w
  w ← Writer.u8 m.cipher_offer w
  w ← Writer.u8 m.chosen_cipher w
  Writer.bytes m.proof w

-- The message is value-initialised, and an array that cannot be read keeps its zeros.
unfoldable pub read_handshake_prefix : Endian → Reader → HandshakeRequest × Reader
read_handshake_prefix host r =
    let (id, r) = Reader.copy_to (replicate 16 0) 16 r in
    let (version_major, r) = Reader.u8 r in
    let (version_minor, r) = Reader.u8 r in
    let (compatible_version_major, r) = Reader.u8 r in
    let (compatible_version_minor, r) = Reader.u8 r in
    let (protocol_version, r) = Reader.u8 r in
    let (fingerprint, r) = Reader.u64 host r in
    let (key_id, r) = Reader.copy_to (replicate 8 0) 8 r in
    let (own_nonce, r) = Reader.copy_to (replicate 16 0) 16 r in
    let (cipher_offer, r) = Reader.u8 r in
    let (chosen_cipher, r) = Reader.u8 r in
    let (proof, r) = Reader.copy_to (replicate 32 0) 32 r in
    (
      record {
        id = id;
        version_major = version_major;
        version_minor = version_minor;
        compatible_version_major = compatible_version_major;
        compatible_version_minor = compatible_version_minor;
        protocol_version = protocol_version;
        fingerprint = fingerprint;
        key_id = key_id;
        own_nonce = own_nonce;
        cipher_offer = cipher_offer;
        chosen_cipher = chosen_cipher;
        proof = proof;
      },
      r,
    )

unfoldable pub encode_handshake_request_into : Endian → List ℕ → HandshakeRequest → Option (List ℕ)
encode_handshake_request_into host out req = do
  w ← write_handshake_prefix host req (writer (resize handshake_request_size out))
  some w.region

unfoldable pub encode_handshake_response_into :
    Endian → List ℕ → HandshakeResponse → Option (List ℕ)
encode_handshake_response_into host out resp = do
  w ← write_handshake_prefix host resp.prefix (writer (resize handshake_response_size out))
  w ← Writer.u8 (handshake_status_byte resp.status) w
  some w.region

unfoldable pub encode_handshake_request : Endian → HandshakeRequest → Option (List ℕ)
encode_handshake_request host req = encode_handshake_request_into host [] req

unfoldable pub encode_handshake_response : Endian → HandshakeResponse → Option (List ℕ)
encode_handshake_response host resp = encode_handshake_response_into host [] resp

unfoldable pub decode_handshake_request : Endian → List ℕ → Option HandshakeRequest
decode_handshake_request host payload =
    let (req, _) = read_handshake_prefix host (reader payload) in
    if ltb (length payload) handshake_request_size then none else some req

unfoldable pub decode_handshake_response : Endian → List ℕ → Option HandshakeResponse
decode_handshake_response host payload =
    let (prefix, r) = read_handshake_prefix host (reader payload) in
    let (status_byte, _) = Reader.u8 r in
    if ltb (length payload) handshake_response_size then none else do
      status ← defined_handshake_status status_byte
      some (record { prefix = prefix; status = status })
