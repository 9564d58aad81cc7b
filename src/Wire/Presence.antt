-- ===== src/Wire/Presence.antt =====
-- lib/plexus-wire/include/plexus/wire/heartbeat.h and fetch_latched.h: two frames of fixed size, and
-- what is read back of them.
use plexus.Common.{ℕ, ◌<◌, ◌^◌, ◌≡◌, refl, ap, arith, ltb, if◌then◌else◌}
use plexus.Common.{Option, none, some, ◌>>=◌, List, [], ◌∷◌, ◌++◌, length, drop, replicate}
use plexus.Wire.ByteOrder.{Endian, be_bytes, read_u8, read_u32, read_u64}
use plexus.Wire.ByteOrder.Swap.{
  write_u32-be_bytes, write_u64-be_bytes, read_u32-be_bytes, read_u64-be_bytes,
}
use plexus.Wire.Writer.{Writer, writer, resize}
use plexus.Wire.Writer
use plexus.Wire.Writer.Fill.{fill, fill_lem, length-resize}

pub record Heartbeat : Type 0 where
  pub version : ℕ
  pub reserved : ℕ

abbrev pub heartbeat_payload_size : ℕ
heartbeat_payload_size = 2

unfoldable pub encode_heartbeat_into : List ℕ → Heartbeat → Option (List ℕ)
encode_heartbeat_into out hb = do
  w ← Writer.u8 hb.version (writer (resize heartbeat_payload_size out))
  w ← Writer.u8 hb.reserved w
  some w.region

unfoldable pub encode_heartbeat : Heartbeat → Option (List ℕ)
encode_heartbeat hb = encode_heartbeat_into [] hb

unfoldable pub decode_heartbeat : List ℕ → Option Heartbeat
decode_heartbeat payload =
    if ltb (length payload) heartbeat_payload_size
    then none
    else some (record { version = read_u8 payload; reserved = read_u8 (drop 1 payload) })

pub record FetchLatchedRequest : Type 0 where
  pub topic_hash : ℕ
  pub max_samples : ℕ

abbrev pub fetch_latched_request_size : ℕ
fetch_latched_request_size = 12

unfoldable pub encode_fetch_latched_request : Endian → FetchLatchedRequest → Option (List ℕ)
encode_fetch_latched_request host req = do
  w ← Writer.u64 host req.topic_hash (writer (replicate fetch_latched_request_size 0))
  w ← Writer.u32 host req.max_samples w
  some w.region

unfoldable pub decode_fetch_latched_request : Endian → List ℕ → Option FetchLatchedRequest
decode_fetch_latched_request host payload =
    if ltb (length payload) fetch_latched_request_size
    then none
    else some (record {
      topic_hash = read_u64 host payload;
      max_samples = read_u32 host (drop 8 payload);
    })

pub decode_heartbeat-encode_heartbeat_into :
    (out : List ℕ) (hb : Heartbeat) → (encode_heartbeat_into out hb >>= decode_heartbeat) ≡ some hb
unfolding encode_heartbeat_into decode_heartbeat
decode_heartbeat-encode_heartbeat_into out hb =
    ap (λ o. o >>= decode_heartbeat)
      (fill_lem ((hb.version ∷ []) ∷ (hb.reserved ∷ []) ∷ []) (resize 2 out)
        (omega (arith, length-resize 2 out)))

pub decode_fetch-encode_fetch :
    (host host' : Endian) (req : FetchLatchedRequest)
    → req.topic_hash < 2 ^ 64
    → req.max_samples < 2 ^ 32
    → (encode_fetch_latched_request host req >>= decode_fetch_latched_request host') ≡ some req
unfolding encode_fetch_latched_request decode_fetch_latched_request
decode_fetch-encode_fetch host host' req ht hm =
    let layout = be_bytes 8 req.topic_hash ++ (be_bytes 4 req.max_samples ++ []) in
    let written : fill (be_bytes 8 req.topic_hash ∷ be_bytes 4 req.max_samples ∷ [])
          (writer (replicate 12 0))
        ≡ some layout =
      fill_lem (be_bytes 8 req.topic_hash ∷ be_bytes 4 req.max_samples ∷ []) (replicate 12 0)
        (unfold be_bytes in refl) in
    let hash : read_u64 host' layout ≡ req.topic_hash =
      read_u64-be_bytes host' req.topic_hash _ ht in
    let most : read_u32 host' (drop 8 layout) ≡ req.max_samples =
      unfold be_bytes in read_u32-be_bytes host' req.max_samples _ hm in
    let long : length layout ≡ 12 = unfold be_bytes in refl in
    rw
      (
        write_u64-be_bytes host req.topic_hash ht,
        write_u32-be_bytes host req.max_samples hm,
        written,
        long,
        hash,
        most,
      )
      refl
