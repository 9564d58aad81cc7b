-- ===== src/Wire/Subscribe.antt =====
-- lib/plexus-wire/include/plexus/wire/subscribe.h and detail/subscribe_codec.h: the frames of a
-- subscription. A string is its bytes, a pointer into a buffer is the cursor of a writer, and an
-- enumerator that is cast from a byte is that byte.
pub mod Layout
pub mod RoundTrip
pub mod Responses
use plexus.Common.{ℕ, ◌+◌, ◌%◌, ◌^◌, Bool, true, false, not, ◌||◌, ltb, ◌==◌, if◌then◌else◌}
use plexus.Common.{Option, none, some, ◌>>=◌, List, [], ◌∷◌, length, drop, replicate}
use plexus.Wire.ByteOrder.{Endian, read_u8, read_u32, read_u64}
use plexus.Wire.LengthPrefixed.{w16, read_length_prefixed}
use plexus.Wire.Writer.{Writer, writer}
use plexus.Wire.Writer

pub record SubscribeQosRegion : Type 0 where
  pub durability : ℕ
  pub delivery_mode : ℕ
  pub replay_depth : ℕ
  pub requested_flags : ℕ
  pub requested_deadline_ns : ℕ
  pub requested_lease_ns : ℕ
  pub requested_priority : ℕ
  pub requested_max_message_bytes : ℕ

-- `subscribe_qos_region qos{}`.
abbrev pub no_qos : SubscribeQosRegion
no_qos = record {
  durability = 0;
  delivery_mode = 0;
  replay_depth = 0;
  requested_flags = 0;
  requested_deadline_ns = 0;
  requested_lease_ns = 0;
  requested_priority = 0;
  requested_max_message_bytes = 0;
}

pub record SubscribeRequest : Type 0 where
  pub fqn : List ℕ
  pub type_name : List ℕ
  pub topic_hash : ℕ
  pub type_hash : ℕ
  pub source : ℕ
  pub has_qos : Bool
  pub qos : SubscribeQosRegion

pub record SubscribeResponse : Type 0 where
  pub topic_hash : ℕ
  pub status : ℕ
  pub has_degraded : Bool
  pub degraded_flags : ℕ

pub record UnsubscribeResponse : Type 0 where
  pub topic_hash : ℕ
  pub status : ℕ

abbrev pub subscribe_response_size : ℕ
subscribe_response_size = 9

abbrev pub subscribe_request_fixed_prefix : ℕ
subscribe_request_fixed_prefix = 17

abbrev pub subscribe_request_min_size : ℕ
subscribe_request_min_size = 21

abbrev pub unsubscribe_request_size : ℕ
unsubscribe_request_size = 8

abbrev pub unsubscribe_response_size : ℕ
unsubscribe_response_size = 9

abbrev pub k_max_fqn : ℕ
k_max_fqn = 1024

abbrev pub k_max_type_name : ℕ
k_max_type_name = 512

abbrev pub k_qos_region_size : ℕ
k_qos_region_size = 30

abbrev pub k_max_qos_region : ℕ
k_max_qos_region = 64

-- The fields lie behind one another, so that each is written where the one before it ends.
unfoldable pub write_qos_region : Endian → SubscribeQosRegion → Writer → Option Writer
write_qos_region host qos w = do
  w ← Writer.u8 qos.durability w
  w ← Writer.u8 qos.delivery_mode w
  w ← Writer.u32 host qos.replay_depth w
  w ← Writer.u8 qos.requested_flags w
  w ← Writer.u64 host qos.requested_deadline_ns w
  w ← Writer.u64 host qos.requested_lease_ns w
  w ← Writer.u8 qos.requested_priority w
  w ← Writer.u32 host qos.requested_max_message_bytes w
  w ← Writer.u8 0 w
  Writer.u8 0 w

-- A copy of no bytes is none, as the source's tests make it.
unfoldable pub write_subscribe_head : Endian → SubscribeRequest → Writer → Option Writer
write_subscribe_head host req w = do
  w ← Writer.u64 host req.topic_hash w
  w ← Writer.u64 host req.type_hash w
  w ← Writer.u8 req.source w
  w ← Writer.u16 host (length req.fqn % 2 ^ 16) w
  w ← Writer.bytes req.fqn w
  w ← Writer.u16 host (length req.type_name % 2 ^ 16) w
  Writer.bytes req.type_name w

unfoldable pub write_subscribe_qos : Endian → SubscribeRequest → Writer → Option Writer
write_subscribe_qos host req w =
    if req.has_qos
    then (Writer.u16 host (k_qos_region_size % 2 ^ 16) w >>= write_qos_region host req.qos)
    else some w

unfoldable pub encode_subscribe_request : Endian → SubscribeRequest → Option (List ℕ)
encode_subscribe_request host req =
    let head = subscribe_request_fixed_prefix + 2 + length req.fqn + 2 + length req.type_name in
    let total = if req.has_qos then head + (2 + k_qos_region_size) else head in
    do
      w ← write_subscribe_head host req (writer (replicate total 0))
      w ← write_subscribe_qos host req w
      some w.region

-- The fields of the region at their offsets.
unfoldable pub read_qos_region : Endian → List ℕ → SubscribeQosRegion
read_qos_region host q = record {
  durability = read_u8 q;
  delivery_mode = read_u8 (drop 1 q);
  replay_depth = read_u32 host (drop 2 q);
  requested_flags = read_u8 (drop 6 q);
  requested_deadline_ns = read_u64 host (drop 7 q);
  requested_lease_ns = read_u64 host (drop 15 q);
  requested_priority = read_u8 (drop 23 q);
  requested_max_message_bytes = read_u32 host (drop 24 q);
}

-- What `read_subscribe_qos` makes of the region that the prefix delimits.
unfoldable pub take_qos_region : Endian → SubscribeRequest → List ℕ → Option SubscribeRequest
take_qos_region host req region =
    if not (length region == k_qos_region_size) || ltb k_max_qos_region (length region)
    then none
    else some (record req { qos = read_qos_region host region; has_qos = true })

unfoldable pub read_subscribe_qos : Endian → List ℕ → ℕ → SubscribeRequest → Option SubscribeRequest
read_subscribe_qos host payload consumed req = do
  (region, consumed) ← read_length_prefixed host w16 payload consumed 1
  take_qos_region host req region

-- A string behind its length, within its cap.
unfoldable pub read_capped : Endian → ℕ → List ℕ → ℕ → Option (List ℕ × ℕ)
read_capped host cap payload consumed = do
  (span, consumed) ← read_length_prefixed host w16 payload consumed 1
  if ltb cap (length span) then none else some (span, consumed)

-- The region is there where bytes are left.
unfoldable pub read_tail : Endian → List ℕ → ℕ → SubscribeRequest → Option SubscribeRequest
read_tail host payload consumed req =
    if ltb consumed (length payload) then read_subscribe_qos host payload consumed req else some req

unfoldable pub decode_subscribe_request : Endian → List ℕ → Option SubscribeRequest
decode_subscribe_request host payload =
    if ltb (length payload) subscribe_request_min_size then none else do
      (fqn, consumed) ← read_capped host k_max_fqn payload subscribe_request_fixed_prefix
      (type_name, consumed) ← read_capped host k_max_type_name payload consumed
      read_tail host payload consumed (record {
        fqn = fqn;
        type_name = type_name;
        topic_hash = read_u64 host payload;
        type_hash = read_u64 host (drop 8 payload);
        source = read_u8 (drop 16 payload);
        has_qos = false;
        qos = no_qos;
      })

-- The trailing byte of a degraded acceptance.
unfoldable pub write_degraded : SubscribeResponse → Writer → Option Writer
write_degraded resp w = if resp.has_degraded then Writer.u8 resp.degraded_flags w else some w

unfoldable pub encode_subscribe_response : Endian → SubscribeResponse → Option (List ℕ)
encode_subscribe_response host resp =
    let size = if resp.has_degraded then subscribe_response_size + 1 else subscribe_response_size in
    do
      w ← Writer.u64 host resp.topic_hash (writer (replicate size 0))
      w ← Writer.u8 resp.status w
      w ← write_degraded resp w
      some w.region

unfoldable pub decode_subscribe_response : Endian → List ℕ → Option SubscribeResponse
decode_subscribe_response host payload =
    let degraded = ltb subscribe_response_size (length payload) in
    if ltb (length payload) subscribe_response_size
    then none
    else some (record {
      topic_hash = read_u64 host payload;
      status = read_u8 (drop 8 payload);
      has_degraded = degraded;
      degraded_flags = if degraded then read_u8 (drop 9 payload) else 0;
    })

unfoldable pub encode_unsubscribe_request : Endian → ℕ → Option (List ℕ)
encode_unsubscribe_request host topic_hash = do
  w ← Writer.u64 host topic_hash (writer (replicate unsubscribe_request_size 0))
  some w.region

unfoldable pub decode_unsubscribe_request : Endian → List ℕ → Option ℕ
decode_unsubscribe_request host payload =
    if ltb (length payload) unsubscribe_request_size then none else some (read_u64 host payload)

unfoldable pub encode_unsubscribe_response : Endian → UnsubscribeResponse → Option (List ℕ)
encode_unsubscribe_response host resp = do
  w ← Writer.u64 host resp.topic_hash (writer (replicate unsubscribe_response_size 0))
  w ← Writer.u8 resp.status w
  some w.region

unfoldable pub decode_unsubscribe_response : Endian → List ℕ → Option UnsubscribeResponse
decode_unsubscribe_response host payload =
    if ltb (length payload) unsubscribe_response_size
    then none
    else some (record { topic_hash = read_u64 host payload; status = read_u8 (drop 8 payload) })
